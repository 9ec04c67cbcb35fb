-- ===== src/Glib/Auth.antt =====
-- glib/gauth: tokens. github.com/golang-jwt/jwt/v4 and the times are interfaces; `T` is the type of
-- times.
pub mod Laws
use shopble_stellar.Common.{
  ℕ, suc, ◌*◌, ◌%◌, ◌-◌, ◌^◌, String, Bool, Option, none, some, List, ltb, ◌==◌, string_eq,
  if◌then◌else◌, ◌>>=◌,
}
use shopble_stellar.Common.Int.{ℤ, pos, negsuc, signed64}

-- `TokenTimeout` is an int64, read from the file as a number or as a text like "15m".
pub record AuthConfig : Type 0 where
  pub issuer : String
  pub token_timeout : ℤ
  pub secret_key : String

pub record RegisteredClaims (T : Type 0) : Type 0 where
  pub subject : String
  pub issuer : String
  pub expires_at : T
  pub issued_at : T
  pub not_before : T

pub record JwtClaimData (T : Type 0) : Type 0 where
  pub token : String
  pub roles : List String
  pub permissions : List String
  pub registered : RegisteredClaims T

pub record Jwt (T : Type 0) : Type 0 where
  -- `Time.Add` of so many nanoseconds, and `NewNumericDate`
  pub add : T → ℤ → T
  pub numeric_date : T → T
  -- `NewWithClaims(method, claims).SignedString(key)`
  pub sign : String → JwtClaimData T → String → Option String
  -- `ParseWithClaims` at a time, with the function from the method to the key
  pub parse_with_claims : T → String → (String → Option String) → Option (JwtClaimData T)
  -- `VerifyIssuer(issuer, true)`
  pub verify_issuer : JwtClaimData T → String → Bool

abbrev pub hs256 : String
hs256 = "HS256"

abbrev pub second : ℕ
second = 1000000000

-- `conf.TokenTimeout * time.Second`, which wraps around.
unfoldable pub lifetime : ℤ → ℤ
lifetime (pos n) = signed64 (n * second % 2 ^ 64)
lifetime (negsuc n) = signed64 ((2 ^ 64 - suc n * second % 2 ^ 64) % 2 ^ 64)

module _ {T : Type 0} (jwt : Jwt T) (conf : AuthConfig) where
  -- `NewClaimWithWrapperInfo`
  unfoldable pub new_claim : T → List String → List String → String → JwtClaimData T
  new_claim now roles permissions subject = record {
    token = "";
    roles = roles;
    permissions = permissions;
    registered = record {
      subject = subject;
      issuer = conf.issuer;
      expires_at = jwt.numeric_date (jwt.add now (lifetime conf.token_timeout));
      issued_at = jwt.numeric_date now;
      not_before = jwt.numeric_date now;
    };
  }

  -- The function that `IsValid` hands to the parser: only one method has a key.
  unfoldable pub key_of : String → Option String
  key_of method = if method == hs256 then some conf.secret_key else none

  -- `IsValid`; `none` is an error.
  unfoldable pub is_valid : T → String → Option (JwtClaimData T)
  is_valid now token = do
    claim ← jwt.parse_with_claims now token key_of
    if jwt.verify_issuer claim conf.issuer then some claim else none

  -- `Token`
  unfoldable pub token_of : JwtClaimData T → Option String
  token_of claims = jwt.sign hs256 claims conf.secret_key

-- `SubjectFromContext`, `RolesFromContext` and `PermissionsFromContext`: without claims in the
-- context they read through a nil pointer, which is `none`.
module _ {T : Type 0} where
  unfoldable pub subject_from_context : Option (JwtClaimData T) → Option String
  subject_from_context none = none
  subject_from_context (some claims) = some claims.registered.subject

  unfoldable pub roles_from_context : Option (JwtClaimData T) → Option (List String)
  roles_from_context none = none
  roles_from_context (some claims) = some claims.roles

  unfoldable pub permissions_from_context : Option (JwtClaimData T) → Option (List String)
  permissions_from_context none = none
  permissions_from_context (some claims) = some claims.permissions
