-- ===== src/Glib/Auth/Laws.antt =====
-- Which tokens are accepted, and for how long.
use mathlib.Core.Option.{some-injective}
use shopble_stellar.Common.{
  ℕ, ◌*◌, ◌<◌, String, ◌≡◌, ◌≢◌, ◌↔◌, refl, sym, inl, inr, Bool, Bool-cases, true, not, ◌&&◌, subst,
  >>=-eq-some, Option, some, List, ◌==◌, string_eq, eq_iff, arith,
}
use shopble_stellar.Common.Int.{pos}
use shopble_stellar.Glib.Auth.{
  AuthConfig, JwtClaimData, Jwt, hs256, second, lifetime, new_claim, key_of, is_valid, token_of,
}

-- A token lives for as many seconds as the configuration says exactly when these are at most
-- 9223372036. For a larger number the product wraps around.
pub lifetime_iff : (n : ℕ) → (lifetime (pos n) ≡ pos (n * second)) ↔ (n < 9223372037)
unfolding lifetime
lifetime_iff n = (λ e. ground arith, λ h. ground arith)

-- The time stamps of the claims allow their use: not before they were issued and not once they have
-- expired.
abbrev pub in_time : {T : Type 0} → (T → T → Bool) → T → JwtClaimData T → Bool
in_time before now claims =
    (before now claims.registered.expires_at && not (before now claims.registered.issued_at))
    && not (before now claims.registered.not_before)

-- The documented behaviour of the parser, for a relation `Signed` between a method, a key, a token
-- and the claims that were signed.
pub record IsLawful {T : Type 0} (jwt : Jwt T) (before : T → T → Bool)
    (Signed : String → String → String → JwtClaimData T → Type 0) : Type 0 where
  pub sign_lem :
      (method key : String) (claims : JwtClaimData T) {token : String}
      → jwt.sign method claims key ≡ some token
      → Signed method key token claims
  pub parse_lem :
      (now : T) (token : String) (keys : String → Option String) {claims : JwtClaimData T}
      → jwt.parse_with_claims now token keys ≡ some claims
      → (method key : String) × (keys method ≡ some key)
        × Signed method key token claims
        × (in_time before now claims ≡ true)
  pub parse_signed :
      (now : T) (keys : String → Option String) (method key token : String)
      (claims : JwtClaimData T)
      → keys method ≡ some key
      → Signed method key token claims
      → in_time before now claims ≡ true
      → jwt.parse_with_claims now token keys ≡ some claims
  pub verify_issuer_lem :
      (claims : JwtClaimData T) (issuer : String)
      → jwt.verify_issuer claims issuer
        ≡ (not (claims.registered.issuer == "") && (claims.registered.issuer == issuer))

module _ {T : Type 0} (jwt : Jwt T) (before : T → T → Bool)
    (Signed : String → String → String → JwtClaimData T → Type 0)
    (lawful : IsLawful jwt before Signed) (conf : AuthConfig) where
  key_of_lem :
      (method key : String)
      → key_of jwt conf method ≡ some key
      → (method ≡ hs256) × (conf.secret_key ≡ key)
  unfolding key_of
  key_of_lem method key h = ground (arith, eq_iff method hs256)

  key_of-hs256 : key_of jwt conf hs256 ≡ some conf.secret_key
  unfolding key_of
  key_of-hs256 = ground (arith, eq_iff hs256 hs256)

  issuer_iff :
      (claims : JwtClaimData T)
      → (jwt.verify_issuer claims conf.issuer ≡ true)
        ↔ ((conf.issuer ≢ "") × (claims.registered.issuer ≡ conf.issuer))
  issuer_iff claims = rw (lawful.verify_issuer_lem) (
    λ e.
        ground
          (arith, eq_iff claims.registered.issuer "", eq_iff claims.registered.issuer conf.issuer),
    λ h.
        ground
          (arith, eq_iff claims.registered.issuer "", eq_iff claims.registered.issuer conf.issuer),
  )

  is_valid-parsed :
      (now : T) (token : String) (claims : JwtClaimData T)
      → is_valid jwt conf now token ≡ some claims
      → (jwt.parse_with_claims now token (key_of jwt conf) ≡ some claims)
        × (jwt.verify_issuer claims conf.issuer ≡ true)
  unfolding is_valid
  is_valid-parsed now token claims h =
      let (found, parsed, checked) =
        >>=-eq-some (jwt.parse_with_claims now token (key_of jwt conf)) _ h in
      elim (Bool-cases (jwt.verify_issuer found conf.issuer)) [
        | inl fine ↦
            let same : found ≡ claims = some-injective _ _ (rw fine at checked) in
            subst
              (λ (c : JwtClaimData T).
                (jwt.parse_with_claims now token (key_of jwt conf) ≡ some c)
                × (jwt.verify_issuer c conf.issuer ≡ true))
              same (parsed, fine)
        | inr other ↦ absurd (ground (arith, other, checked))
      ]

  -- A token is accepted with just the claims that were signed in it with HS256 and the secret of
  -- the configuration, when their times allow it and their issuer is that of the configuration,
  -- which must not be empty.
  pub is_valid_iff :
      (now : T) (token : String) (claims : JwtClaimData T)
      → (is_valid jwt conf now token ≡ some claims) ↔ (
          Signed hs256 conf.secret_key token claims
          × (in_time before now claims ≡ true)
          × (conf.issuer ≢ "")
          × (claims.registered.issuer ≡ conf.issuer))
  is_valid_iff now token claims = (
    λ h.
        let (parsed, checked) = is_valid-parsed now token claims h in
        let (method, key, known, signed, timely) =
          lawful.parse_lem now token (key_of jwt conf) parsed in
        let (is_hs256, is_secret) = key_of_lem method key known in
        let (named, same) = (issuer_iff claims).0 checked in
        (
          subst (λ (m : String). Signed m conf.secret_key token claims) is_hs256
              (subst (λ (k : String). Signed method k token claims) (sym is_secret) signed),
          timely,
          named,
          same,
        ),
    λ (signed, timely, named, same).
        let parsed =
          lawful.parse_signed now (key_of jwt conf) hs256 conf.secret_key token claims key_of-hs256
            signed timely in
        unfold is_valid in rw (parsed, (issuer_iff claims).1 (named, same)),
  )

  -- The token of a new claim is accepted, with the subject, the roles and the permissions that it
  -- was made for, as long as its times allow it, where the configuration names an issuer.
  pub is_valid-token_of :
      (now later : T) (roles permissions : List String) (subject : String) {token : String}
      → conf.issuer ≢ ""
      → let claims = new_claim jwt conf now roles permissions subject in
        in_time before later claims ≡ true
        → token_of jwt conf claims ≡ some token
        → is_valid jwt conf later token ≡ some claims
  is_valid-token_of now later roles permissions subject {token} named timely made =
      let claims = new_claim jwt conf now roles permissions subject in
      (is_valid_iff later token claims).1 (
        lawful.sign_lem hs256 conf.secret_key claims (unfold token_of in made),
        timely,
        named,
        unfold new_claim in refl,
      )
