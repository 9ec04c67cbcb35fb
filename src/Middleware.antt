-- ===== src/Middleware.antt =====
-- api/middleware/encryption.go, over the cipher of glib/gsec/chacha.go. The key of the configuration,
-- the text of bytes, the decoder of the time stamp and the clock are arguments.
pub mod Token
use Prim.Native.String.{len}
use shopble_stellar.Common.{
  ℕ, ◌+◌, ◌-◌, ◌^◌, ◌⊎◌, ◌≤◌, ◌<◌, String, ◌≡◌, ◌≢◌, ◌↔◌, refl, Bool, true, false, Option, none,
  some, ltb, ◌==◌, string_eq, nat_eq, eq_iff, if◌then◌else◌, arith, inl, inr, Bool-cases,
}
use shopble_stellar.Common.Int.{ℤ, pos, negsuc, ◌-ℤ◌, ltb_ℤ, pos_part, neg_part, wrap64, IsInt64}
use shopble_stellar.Glib.Secret.{Bytes, Crypto, Result, fine, errs, panics, aes_decrypt}

abbrev pub max_age_ms : ℤ
max_age_ms = pos 30000

-- `diff` and then `-diff`, which wrap around.
abbrev distance : ℤ → ℤ
distance diff = if ltb_ℤ diff (pos 0) then wrap64 (pos 0 -ℤ diff) else diff

abbrev missing : ℤ → Bool
missing (pos n) = n == 0
missing (negsuc n) = false

-- `validateTimestamp`: false is an error.
unfoldable pub validate_timestamp : ℤ → ℤ → Bool
validate_timestamp now timestamp =
    if missing timestamp
    then false
    else if ltb_ℤ max_age_ms (distance (wrap64 (now -ℤ timestamp)))
    then false
    else true

-- A request as the next handler sees it.
pub record Request : Type 0 where
  pub method : String
  pub content_type : String
  pub body : String
  pub content_length : ℕ

pub data Verified : Type 0 where
  next : Request → Verified
  aborted panicked : Verified

module _ {X : Type 0} (crypto : Crypto String X) (key : Bytes) (text_of : Bytes → String)
    (timestamp_of : Bytes → Option ℤ) (now : ℤ) where
  timed : Request → Bytes → Option ℤ → Verified
  timed r decrypted none = aborted
  timed r decrypted (some timestamp) =
      if validate_timestamp now timestamp
      then next (record r {
        body = text_of decrypted;
        content_type = "application/json";
        content_length = len r.body;
      })
      else aborted

  decrypted_body : Request → Result Bytes → Verified
  unfolding timed
  decrypted_body r errs = aborted
  decrypted_body r panics = panicked
  decrypted_body r (fine decrypted) = timed r decrypted (timestamp_of decrypted)

  -- `VerifyRequest`, for a body that can be read.
  unfoldable pub verify_request : Request → Verified
  unfolding decrypted_body
  verify_request r =
      if r.method == "GET"
      then next r
      else if r.content_type == "text/plain"
      then if ltb 0 (len r.body)
        then decrypted_body r (aes_decrypt crypto key r.body)
        else next (record r { content_length = len r.body })
      else if r.content_type == "multipart/form-data"
      then next r
      else aborted

-- The time stamps that are accepted: not 0, and no more than 30 seconds from now, in the past or in
-- the future; or exactly 2 ^ 63 before now, where the difference is the int64 that is its own negative.
abbrev pub IsFresh : ℤ → ℤ → Type 0
IsFresh now timestamp =
    (timestamp ≢ pos 0)
    × (((pos_part now + neg_part timestamp ≤ pos_part timestamp + neg_part now + 30000)
          × (pos_part timestamp + neg_part now ≤ pos_part now + neg_part timestamp + 30000))
        ⊎ (pos_part now + neg_part timestamp ≡ pos_part timestamp + neg_part now + 2 ^ 63))

-- For int64 numbers, and a clock after 1970 and before 2 ^ 62.
pub validate_timestamp_iff :
    (n : ℕ) (timestamp : ℤ)
    → n < 2 ^ 62
    → IsInt64 timestamp
    → (validate_timestamp (pos n) timestamp ≡ true) ↔ IsFresh (pos n) timestamp
unfolding validate_timestamp ◌-ℤ◌
validate_timestamp_iff n (pos m) small whole = ground arith
validate_timestamp_iff n (negsuc m) small whole = ground arith

module _ {X : Type 0} (crypto : Crypto String X) (key : Bytes) (text_of : Bytes → String)
    (timestamp_of : Bytes → Option ℤ) (n : ℕ) (clock : n < 2 ^ 62)
    (whole : (b : Bytes) (t : ℤ) → timestamp_of b ≡ some t → IsInt64 t) where
  -- What the next handler gets of a decrypted body.
  pub record Forwarded (r r' : Request) (decrypted : Bytes) : Type 0 where
    pub body : r'.body ≡ text_of decrypted
    pub content_type : r'.content_type ≡ "application/json"
    pub content_length : r'.content_length ≡ len r.body
    pub timestamp : ℤ
    pub decoded : timestamp_of decrypted ≡ some timestamp
    pub fresh : IsFresh (pos n) timestamp

  timed-next :
      (r : Request) (text : Bytes) (stamp : Option ℤ) {r' : Request}
      → timestamp_of text ≡ stamp
      → timed crypto key text_of timestamp_of (pos n) r text stamp ≡ next r'
      → Forwarded r r' text
  unfolding timed
  timed-next r text none known h = cc
  timed-next r text (some t) known h = elim (Bool-cases (validate_timestamp (pos n) t)) [
    | inl accepted ↦
        let same = rw (timed, accepted) at h in
        record {
          body = cc same;
          content_type = cc same;
          content_length = cc same;
          timestamp = t;
          decoded = known;
          fresh = (validate_timestamp_iff n t clock (whole text t known)).0 accepted;
        }
    | inr stale ↦ absurd (cc (rw (timed, stale) at h))
  ]

  decrypted_body-next :
      (r : Request) (plain : Result Bytes) {r' : Request}
      → decrypted_body crypto key text_of timestamp_of (pos n) r plain ≡ next r'
      → (decrypted : Bytes) × (plain ≡ fine decrypted) × Forwarded r r' decrypted
  unfolding decrypted_body
  decrypted_body-next r errs h = cc
  decrypted_body-next r panics h = cc
  decrypted_body-next r (fine text) h = (text, refl, timed-next r text (timestamp_of text) refl h)

  -- For a clock after 1970 and before 2 ^ 62 milliseconds, and time stamps that are int64 numbers: a
  -- plain-text request with a body that is not a GET goes on only if its body decrypts to a text
  -- with a time stamp that is not 0 and at most 30 seconds from now, or exactly 2 ^ 63 milliseconds
  -- before now. It then goes on with that text as its body and as JSON, and with the length of the
  -- body before decryption as its content length.
  pub verify_request-next :
      (r : Request) {r' : Request}
      → r.method ≢ "GET"
      → r.content_type ≡ "text/plain"
      → 0 < len r.body
      → verify_request crypto key text_of timestamp_of (pos n) r ≡ next r'
      → (decrypted : Bytes) × (aes_decrypt crypto key r.body ≡ fine decrypted)
        × Forwarded r r' decrypted
  unfolding verify_request
  verify_request-next r {r'} post plain full h =
      let not_get : (r.method == "GET") ≡ false = ground (arith, eq_iff r.method "GET") in
      let is_text : (r.content_type == "text/plain") ≡ true = (eq_iff _ _).1 plain in
      let has_body : ltb 0 (len r.body) ≡ true = ground arith in
      let rest : decrypted_body crypto key text_of timestamp_of (pos n) r
            (aes_decrypt crypto key r.body)
          ≡ next r' =
        rw (verify_request, not_get, is_text, has_body) at h in
      decrypted_body-next r (aes_decrypt crypto key r.body) rest
