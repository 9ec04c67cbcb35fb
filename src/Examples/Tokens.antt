-- ===== src/Examples/Tokens.antt =====
-- A toolkit for tokens whose signature is the secret, and a clock of numbers.
use mathlib.Core.Option.{some-injective}
use shopble_stellar.Common.{
  Bool-cases, inl, inr, ℕ, ◌+◌, ◌*◌, ◌<◌, String, ◌<>◌, ◌≡◌, ◌≢◌, ◌↔◌, refl, Bool, true, false, not,
  ◌&&◌, Option, none, some, List, [], ◌∷◌, ltb, ◌==◌, string_eq, nat_eq, sym, ap, ◌∙◌, eq_iff,
  arith, if◌then◌else◌,
}
use shopble_stellar.Common.Int.{ℤ, pos}
use shopble_stellar.Glib.Auth.{
  AuthConfig, JwtClaimData, Jwt, lifetime, second, new_claim, hs256, token_of,
}
use shopble_stellar.Glib.Auth.Laws.{IsLawful, in_time, lifetime_iff}
use shopble_stellar.Middleware.Token.{
  bearer_token, verify_token, next, verify_token-next_iff, verify_token-token_of,
}

abbrev claims_of : String → JwtClaimData ℕ
claims_of token = record {
  token = "";
  roles = [];
  permissions = [];
  registered = record {
    subject = token;
    issuer = "shop";
    expires_at = 900 * second;
    issued_at = 0;
    not_before = 0;
  };
}

abbrev is_nil : List String → Bool
is_nil [] = true
is_nil (x ∷ xs) = false

-- The claims that this toolkit can sign.
abbrev simple : JwtClaimData ℕ → Bool
simple c =
    (((c.token == "") && (is_nil c.roles && is_nil c.permissions))
      && ((c.registered.issuer == "shop") && (c.registered.expires_at == 900 * second)))
    && ((c.registered.issued_at == 0) && (c.registered.not_before == 0))

abbrev has_key : Option String → Bool
has_key none = false
has_key (some key) = key == "k"

abbrev added : ℕ → ℤ → ℕ
added t (pos n) = t + n
added t (ℤ.negsuc n) = t

abbrev jwt : Jwt ℕ
jwt = record {
  add = added;
  numeric_date = λ t. t;
  sign = λ method claims key.
      if ((method == hs256) && (key == "k")) && simple claims
      then some claims.registered.subject
      else none;
  parse_with_claims = λ now token keys.
      if has_key (keys hs256) && in_time ltb now (claims_of token)
      then some (claims_of token)
      else none;
  verify_issuer =
      λ claims issuer. not (claims.registered.issuer == "") && (claims.registered.issuer == issuer);
}

abbrev SignedHere : String → String → String → JwtClaimData ℕ → Type 0
SignedHere method key token claims = (method ≡ hs256) × (key ≡ "k") × (claims ≡ claims_of token)

is_nil-nil : (xs : List String) → is_nil xs ≡ true → xs ≡ []
is_nil-nil [] h = refl
is_nil-nil (x ∷ xs) h = cc

simple-claims_of : (c : JwtClaimData ℕ) → simple c ≡ true → c ≡ claims_of c.registered.subject
simple-claims_of c h = ground (
  arith,
  eq_iff c.token "",
  eq_iff c.registered.issuer "shop",
  is_nil-nil c.roles,
  is_nil-nil c.permissions,
)

has_key-k : (o : Option String) → has_key o ≡ true → o ≡ some "k"
has_key-k none h = cc
has_key-k (some key) h = ground (arith, eq_iff key "k")

parsed :
    (now : ℕ) (token : String) (keys : String → Option String) {claims : JwtClaimData ℕ}
    → jwt.parse_with_claims now token keys ≡ some claims
    → (method key : String) × (keys method ≡ some key)
      × SignedHere method key token claims
      × (in_time ltb now claims ≡ true)
parsed now token keys h =
    elim (Bool-cases (has_key (keys hs256) && in_time ltb now (claims_of token))) [
      | inl fine ↦
          let same = some-injective _ _ (rw fine at h) in
          (
            hs256,
            "k",
            has_key-k (keys hs256) (ground arith),
            (refl, refl, sym same),
            ap (in_time ltb now) (sym same) ∙ ground arith,
          )
      | inr other ↦ absurd (cc (rw other at h))
    ]

jwt-IsLawful : IsLawful jwt ltb SignedHere
jwt-IsLawful = record {
  sign_lem = λ method key claims {token} h.
      ground (arith, eq_iff method hs256, eq_iff key "k", simple-claims_of claims);
  parse_lem = λ now token keys {claims} h. parsed now token keys h;
  parse_signed = λ now keys method key token claims known (is_hs256, is_k, same) timely.
      let here : keys hs256 ≡ some "k" = ap keys (sym is_hs256) ∙ known ∙ ap some is_k in
      let fine : in_time ltb now (claims_of token) ≡ true =
        ap (in_time ltb now) (sym same) ∙ timely in
      rw (here, fine, ← same);
  verify_issuer_lem = λ claims issuer. refl;
}

abbrev conf : AuthConfig
conf = record { issuer = "shop"; token_timeout = pos 900; secret_key = "k" }

lifetime_example : (lifetime (pos 900) ≡ pos (900 * second)) ↔ (900 < 9223372037)
lifetime_example = lifetime_iff 900

abbrev folds : String → String → Bool
folds s t = s == t

abbrev kept : String → String
kept s = s

verify_token_example :
    (verify_token folds kept jwt conf 5 "ann" ≡ next (record (claims_of "ann") { token = "ann" }))
    ↔ ((claims : JwtClaimData ℕ) × (bearer_token folds kept "ann" ≢ "")
        × SignedHere hs256 "k" (bearer_token folds kept "ann") claims
        × (in_time ltb 5 claims ≡ true)
        × (◌≢◌ {A = String} "shop" "")
        × (claims.registered.issuer ≡ "shop")
        × (record (claims_of "ann") { token = "ann" }
            ≡ record claims { token = bearer_token folds kept "ann" }))
verify_token_example =
    verify_token-next_iff folds kept jwt conf ltb SignedHere jwt-IsLawful 5 "ann"
      (record (claims_of "ann") { token = "ann" })

new_token_example :
    verify_token folds kept jwt conf 5 ("Bearer " <> "ann")
    ≡ next (record (new_claim jwt conf 0 [] [] "ann") { token = "ann" })
unfolding new_claim lifetime token_of
new_token_example =
    verify_token-token_of folds kept jwt conf ltb SignedHere jwt-IsLawful 0 5 [] [] "ann"
      (ground (arith, eq_iff "shop" "")) refl refl (ground (arith, eq_iff "ann" "")) refl
      ((eq_iff "Bearer " "Bearer ").1 refl)
