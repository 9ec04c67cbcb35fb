-- ===== src/Middleware/Token.antt =====
-- api/middleware/verify_jwt_token.go. `EqualFold` and `TrimSpace` of Go's strings are arguments.
use Prim.Native.String.{len, slice}
use text.Mathlib.TextPositions.{len-append, slice-append_left, slice-append_right}
use shopble_stellar.Common.{
  ◌+◌, String, ◌<>◌, ◌≡◌, ◌≢◌, ◌↔◌, sym, ap, inl, inr, Bool, Bool-cases, true, false, ◌&&◌, Option,
  Option-cases, none, some, List, ltb, ◌==◌, string_eq, eq_iff, arith, if◌then◌else◌, len_positive,
}
use shopble_stellar.Glib.Auth.{AuthConfig, JwtClaimData, Jwt, hs256, new_claim, is_valid, token_of}
use shopble_stellar.Glib.Auth.Laws.{IsLawful, in_time, is_valid_iff, is_valid-token_of}

-- What the handler leads to: the claims that the next handlers find in the context, or the error
-- `ErrorTokenExpired`.
pub data Passed (T : Type 0) : Type 0 where
  next : JwtClaimData T → Passed T
  aborted : Passed T

module _ (equal_fold : String → String → Bool) (trim_space : String → String) where
  -- The header without the word before the token.
  unfoldable pub bearer_token : String → String
  bearer_token header =
      if ltb 7 (len header) && equal_fold (slice header 0 7) "Bearer "
      then trim_space (slice header 7 (len header))
      else header

  bearer_token-Bearer :
      (token : String)
      → token ≢ ""
      → trim_space token ≡ token
      → equal_fold "Bearer " "Bearer " ≡ true
      → bearer_token ("Bearer " <> token) ≡ token
  unfolding bearer_token
  bearer_token-Bearer token full trimmed folds =
      let size : len ("Bearer " <> token) ≡ 7 + len token = len-append "Bearer " token in
      let long : ltb 7 (len ("Bearer " <> token)) ≡ true =
        ground (arith, len_positive token full) in
      let word : slice ("Bearer " <> token) 0 7 ≡ "Bearer " = slice-append_left "Bearer " token in
      let rest : slice ("Bearer " <> token) 7 (7 + len token) ≡ token =
        slice-append_right "Bearer " token in
      rw (long, word, folds, size, rest, trimmed)

  module _ {T : Type 0} (jwt : Jwt T) (conf : AuthConfig) where
    -- `verifyToken`
    verified_claims : T → String → Option (JwtClaimData T)
    verified_claims now token = if token == "" then none else is_valid jwt conf now token

    passed : String → Option (JwtClaimData T) → Passed T
    passed token none = aborted
    passed token (some claims) = next (record claims { token = token })

    -- `VerifyToken`
    unfoldable pub verify_token : T → String → Passed T
    unfolding verified_claims passed
    verify_token now header =
        let token = bearer_token header in passed token (verified_claims now token)

    module _ (before : T → T → Bool) (Signed : String → String → String → JwtClaimData T → Type 0)
        (lawful : IsLawful jwt before Signed) where
      valid_of :
          (now : T) (header : String) (claims : JwtClaimData T)
          → Signed hs256 conf.secret_key (bearer_token header) claims
          → in_time before now claims ≡ true
          → conf.issuer ≢ ""
          → claims.registered.issuer ≡ conf.issuer
          → is_valid jwt conf now (bearer_token header) ≡ some claims
      valid_of now header claims signed timely issued same =
          (is_valid_iff jwt before Signed lawful conf now (bearer_token header) claims).1
            (signed, timely, issued, same)

      -- A request goes on exactly when its header, less the word before the token, is a token that
      -- is not empty and was signed with HS256 and the secret of the configuration, with times
      -- that allow its use and the issuer of the configuration; the next handlers then find the
      -- claims that were signed, with the token.
      pub verify_token-next_iff :
          (now : T) (header : String) (seen : JwtClaimData T)
          → (verify_token now header ≡ next seen) ↔ (
              (claims : JwtClaimData T) × (bearer_token header ≢ "")
              × Signed hs256 conf.secret_key (bearer_token header) claims
              × (in_time before now claims ≡ true)
              × (conf.issuer ≢ "")
              × (claims.registered.issuer ≡ conf.issuer)
              × (seen ≡ record claims { token = bearer_token header }))
      unfolding verify_token
      verify_token-next_iff now header seen =
          let token = bearer_token header in
          elim (Bool-cases (token == "")) [
            | inl empty ↦ (
              λ h. absurd (cc (rw (verify_token, empty) at h)),
              λ (claims, named, rest, r1, r2, r3, r4). absurd (named ((eq_iff token "").0 empty)),
            )
            | inr full ↦ elim (Option-cases (is_valid jwt conf now token)) [
              | inl refused ↦ (
                λ h. absurd (cc (rw (verify_token, full, refused) at h)),
                λ (claims, named, signed, timely, issued, same, it).
                    absurd (cc (refused, valid_of now header claims signed timely issued same)),
              )
              | inr (claims, valid) ↦ (
                λ h.
                    let (signed, timely, issued, same) =
                      (is_valid_iff jwt before Signed lawful conf now token claims).0 valid in
                    let it : next (record claims { token = token }) ≡ next seen =
                      rw (verify_token, full, valid) at h in
                    (
                      claims,
                      λ e. cc ((eq_iff token "").1 e, full),
                      signed,
                      timely,
                      issued,
                      same,
                      cc it,
                    ),
                λ (other, named, signed, timely, issued, same, it).
                    let valid' = valid_of now header other signed timely issued same in
                    rw (verify_token, full, valid') (ap next (sym it)),
              )
            ]
          ]

      -- A request with the token of a new claim in its header, behind the word `Bearer `, goes on
      -- with that claim while its times allow it, where the configuration names an issuer and the
      -- token has no space around it.
      pub verify_token-token_of :
          (now later : T) (roles permissions : List String) (subject : String) {token : String}
          → conf.issuer ≢ ""
          → let claims = new_claim jwt conf now roles permissions subject in
            in_time before later claims ≡ true
            → token_of jwt conf claims ≡ some token
            → token ≢ ""
            → trim_space token ≡ token
            → equal_fold "Bearer " "Bearer " ≡ true
            → verify_token later ("Bearer " <> token) ≡ next (record claims { token = token })
      unfolding verify_token
      verify_token-token_of now later roles permissions subject {token} issued timely made some_text
            trimmed folds =
          let full : (token == "") ≡ false = ground (arith, eq_iff token "") in
          let valid =
            is_valid-token_of jwt before Signed lawful conf now later roles permissions subject
              issued timely made in
          rw (verify_token, bearer_token-Bearer token some_text trimmed folds, full, valid)
