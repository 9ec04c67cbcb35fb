-- ===== src/Glib/Secret.antt =====
-- glib/gsec: AesGmc of chacha.go, and Encrypt and Decrypt of manager.go. Bytes are numbers. Go's
-- crypto/aes, crypto/cipher, crypto/rand and encoding/base64 are the interface `Crypto`, whose
-- randomness acts on an unknown state. A text is of
-- an unknown type `T`: nothing is done with it but to encode and decode it.
pub mod Laws
use shopble_stellar.Common.{
  ℕ, Bool, true, false, not, Option, none, some, List, [], ◌∷◌, ◌++◌, length, take, drop, ltb, ◌==◌,
  nat_eq, if◌then◌else◌,
}

abbrev pub Bytes : Type 0
Bytes = List ℕ

-- The cipher of a key, if the key has a valid length; `seal` and `open_sealed` are what `Seal` appends and
-- `Open` returns.
pub record Aead : Type 0 where
  pub nonce_size : ℕ
  pub seal : Bytes → Bytes → Bytes
  pub open_sealed : Bytes → Bytes → Option Bytes

pub record Crypto (T X : Type 0) : Type 0 where
  pub new_gcm : Bytes → Option Aead
  pub random : ℕ → X → Option Bytes × X
  pub encode : Bytes → T
  pub decode : T → Option Bytes

-- A value, an error, or a panic.
pub data Result {ℓ} (A : Type ℓ) : Type ℓ where
  fine : A → Result A
  errs panics : Result A

abbrev pub nonce_size : ℕ
nonce_size = 12

module _ {T X : Type 0} (crypto : Crypto T X) where
  -- `Seal(nonce, nonce, buff, nil)`, which panics on a nonce of another length.
  sealed : Aead → Bytes → Bytes → Result T
  sealed gcm nonce buff =
      if not (length nonce == gcm.nonce_size)
      then panics
      else fine (crypto.encode (nonce ++ gcm.seal nonce buff))

  or_error : Option Bytes → Result Bytes
  or_error none = errs
  or_error (some buff) = fine buff

  -- What follows a random nonce: the first with RandomBytesF, the second with an error.
  sealed_or_panic : Aead → Bytes → Option Bytes × X → Result T × X
  unfolding sealed
  sealed_or_panic gcm buff (none, x) = (panics, x)
  sealed_or_panic gcm buff (some nonce, x) = (sealed gcm nonce buff, x)

  sealed_or_error : Aead → Bytes → Option Bytes × X → Result T × X
  unfolding sealed
  sealed_or_error gcm buff (none, x) = (errs, x)
  sealed_or_error gcm buff (some nonce, x) = (sealed gcm nonce buff, x)

  -- `AesGmc.Encrypt`
  unfoldable pub aes_encrypt : Bytes → Bytes → X → Result T × X
  unfolding sealed_or_panic
  aes_encrypt key buff x = elim (crypto.new_gcm key) [
    | none ↦ (errs, x)
    | some gcm ↦ sealed_or_panic gcm buff (crypto.random nonce_size x)
  ]

  -- `buff[:n]` and `buff[n:]` panic when the slice is shorter.
  opened : Aead → Bytes → Result Bytes
  unfolding or_error
  opened gcm buff =
      if ltb (length buff) gcm.nonce_size
      then panics
      else or_error (gcm.open_sealed (take gcm.nonce_size buff) (drop gcm.nonce_size buff))

  -- `AesGmc.Decrypt`
  unfoldable pub aes_decrypt : Bytes → T → Result Bytes
  unfolding opened
  aes_decrypt key encoded = elim (crypto.decode encoded) [
    | none ↦ errs
    | some buff ↦ elim (crypto.new_gcm key) [ none ↦ errs | some gcm ↦ opened gcm buff ]
  ]

  -- `Encrypt`
  unfoldable pub encrypt : Bytes → Bytes → X → Result T × X
  unfolding sealed_or_error
  encrypt key plaintext x = elim (crypto.new_gcm key) [
    | none ↦ (errs, x)
    | some gcm ↦ sealed_or_error gcm plaintext (crypto.random gcm.nonce_size x)
  ]

  checked_open : Aead → Bytes → Result Bytes
  unfolding or_error
  checked_open gcm buff =
      if ltb (length buff) gcm.nonce_size
      then errs
      else or_error (gcm.open_sealed (take gcm.nonce_size buff) (drop gcm.nonce_size buff))

  -- `Decrypt`
  unfoldable pub decrypt : Bytes → T → Result Bytes
  unfolding checked_open
  decrypt key encoded = elim (crypto.decode encoded) [
    | none ↦ errs
    | some buff ↦ elim (crypto.new_gcm key) [ none ↦ errs | some gcm ↦ checked_open gcm buff ]
  ]
