-- ===== src/Glib/Secret/Laws.antt =====
-- What was encrypted is decrypted, and when the two decryptions panic.
use shopble_stellar.Common.{
  ℕ, ◌<◌, ◌≡◌, ◌≢◌, ◌↔◌, refl, sym, ap, ◌∙◌, subst, inl, inr, Bool-cases, false, Option,
  Option-cases, none, some, ◌++◌, length, length-append, take, drop, take-append, drop-append, ltb,
  nat_eq, nat_beq_iff, arith,
}
use mathlib.Core.Option.{some-injective}
use shopble_stellar.Glib.Secret.{
  Bytes, Aead, Crypto, fine, errs, panics, nonce_size, sealed, sealed_or_panic, sealed_or_error,
  or_error, aes_encrypt, opened, aes_decrypt, encrypt, checked_open, decrypt,
}

-- What is documented: the decoder and `Open` undo the encoder and `Seal`, the nonce of GCM has 12
-- bytes, and what is random has the length that was asked for.
pub record IsLawful {T X : Type 0} (crypto : Crypto T X) : Type 0 where
  pub decode-encode : (b : Bytes) → crypto.decode (crypto.encode b) ≡ some b
  pub open-seal :
      (key : Bytes) (gcm : Aead) (nonce buff : Bytes)
      → crypto.new_gcm key ≡ some gcm
      → length nonce ≡ gcm.nonce_size
      → gcm.open_sealed nonce (gcm.seal nonce buff) ≡ some buff
  pub gcm_nonce_size :
      (key : Bytes) (gcm : Aead) → crypto.new_gcm key ≡ some gcm → gcm.nonce_size ≡ nonce_size
  pub length-random : (n : ℕ) (x : X) (b : Bytes) → (crypto.random n x).0 ≡ some b → length b ≡ n

module _ {T X : Type 0} (crypto : Crypto T X) (lawful : IsLawful crypto) where
  -- Opening what was sealed.
  module _ (key : Bytes) (gcm : Aead) (made : crypto.new_gcm key ≡ some gcm) (nonce buff : Bytes)
      (sized : length nonce ≡ gcm.nonce_size) where
    long_enough : ltb (length (nonce ++ gcm.seal nonce buff)) gcm.nonce_size ≡ false
    long_enough = let longer = length-append nonce (gcm.seal nonce buff) in ground arith

    open_parts :
        gcm.open_sealed
          (take gcm.nonce_size (nonce ++ gcm.seal nonce buff))
          (drop gcm.nonce_size (nonce ++ gcm.seal nonce buff))
        ≡ some buff
    open_parts =
        rw
          (
            sym sized,
            take-append nonce (gcm.seal nonce buff),
            drop-append nonce (gcm.seal nonce buff),
          )
          (lawful.open-seal key gcm nonce buff made sized)

    opened-sealed : opened crypto gcm (nonce ++ gcm.seal nonce buff) ≡ fine buff
    unfolding opened or_error
    opened-sealed = rw (long_enough, open_parts) refl

    checked_open-sealed : checked_open crypto gcm (nonce ++ gcm.seal nonce buff) ≡ fine buff
    unfolding checked_open or_error
    checked_open-sealed = rw (long_enough, open_parts) refl

    sealed_lem : sealed crypto gcm nonce buff ≡ fine (crypto.encode (nonce ++ gcm.seal nonce buff))
    unfolding sealed
    sealed_lem = rw ((nat_beq_iff (length nonce) gcm.nonce_size).1 sized) refl

    decrypt-encode : decrypt crypto key (crypto.encode (nonce ++ gcm.seal nonce buff)) ≡ fine buff
    unfolding decrypt
    decrypt-encode =
        rw (decrypt, lawful.decode-encode (nonce ++ gcm.seal nonce buff), made) checked_open-sealed

    aes_decrypt-encode :
        aes_decrypt crypto key (crypto.encode (nonce ++ gcm.seal nonce buff)) ≡ fine buff
    unfolding aes_decrypt
    aes_decrypt-encode =
        rw (aes_decrypt, lawful.decode-encode (nonce ++ gcm.seal nonce buff), made) opened-sealed

    sealed_or_panic-fine :
        (r : Option Bytes × X)
        → r.0 ≡ some nonce
        → (sealed_or_panic crypto gcm buff r).0
          ≡ fine (crypto.encode (nonce ++ gcm.seal nonce buff))
    unfolding sealed_or_panic
    sealed_or_panic-fine (none, x) given = cc
    sealed_or_panic-fine (some other, x) given =
        ap (λ n. sealed crypto gcm n buff) (some-injective _ _ given) ∙ sealed_lem

    sealed_or_error-fine :
        (r : Option Bytes × X)
        → r.0 ≡ some nonce
        → (sealed_or_error crypto gcm buff r).0
          ≡ fine (crypto.encode (nonce ++ gcm.seal nonce buff))
    unfolding sealed_or_error
    sealed_or_error-fine (none, x) given = cc
    sealed_or_error-fine (some other, x) given =
        ap (λ n. sealed crypto gcm n buff) (some-injective _ _ given) ∙ sealed_lem

  -- With base64 and GCM as documented, a key of a valid length and randomness to be had, both
  -- encryptions succeed, with the same text, and both decryptions give the message back.
  pub decrypt-encrypt :
      (key buff nonce : Bytes) (gcm : Aead) (x : X)
      → crypto.new_gcm key ≡ some gcm
      → (crypto.random nonce_size x).0 ≡ some nonce
      → (text : T) × ((encrypt crypto key buff x).0 ≡ fine text)
        × ((aes_encrypt crypto key buff x).0 ≡ fine text)
        × (decrypt crypto key text ≡ fine buff)
        × (aes_decrypt crypto key text ≡ fine buff)
  unfolding encrypt aes_encrypt
  decrypt-encrypt key buff nonce gcm x made given =
      let twelve = lawful.gcm_nonce_size key gcm made in
      let sized = lawful.length-random nonce_size x nonce given ∙ sym twelve in
      (
        crypto.encode (nonce ++ gcm.seal nonce buff),
        rw (encrypt, made)
            (sealed_or_error-fine key gcm made nonce buff sized (crypto.random gcm.nonce_size x)
              (ap (λ n. (crypto.random n x).0) twelve ∙ given)),
        rw (aes_encrypt, made)
            (sealed_or_panic-fine key gcm made nonce buff sized (crypto.random nonce_size x) given),
        decrypt-encode key gcm made nonce buff sized,
        aes_decrypt-encode key gcm made nonce buff sized,
      )

module _ {T X : Type 0} (crypto : Crypto T X) where
  or_error-panics : (o : Option Bytes) → or_error crypto o ≢ panics
  unfolding or_error
  or_error-panics none h = cc
  or_error-panics (some buff) h = cc

  checked_open-panics : (gcm : Aead) (buff : Bytes) → checked_open crypto gcm buff ≢ panics
  unfolding checked_open
  checked_open-panics gcm buff h = elim (Bool-cases (ltb (length buff) gcm.nonce_size)) [
    | inl short ↦ let error : checked_open crypto gcm buff ≡ errs = rw short refl in cc (error, h)
    | inr long ↦
        let answer =
          or_error-panics (gcm.open_sealed (take gcm.nonce_size buff) (drop gcm.nonce_size buff)) in
        let plain : checked_open crypto gcm buff
            ≡ or_error crypto
                (gcm.open_sealed (take gcm.nonce_size buff) (drop gcm.nonce_size buff)) =
          rw long refl in
        answer (sym plain ∙ h)
  ]

  opened-panics_iff :
      (gcm : Aead) (buff : Bytes)
      → (opened crypto gcm buff ≡ panics) ↔ (length buff < gcm.nonce_size)
  unfolding opened
  opened-panics_iff gcm buff = elim (Bool-cases (ltb (length buff) gcm.nonce_size)) [
    | inl short ↦ rw short (λ h. ground arith, λ h. refl)
    | inr long ↦ rw long (
      λ h. absurd (
          or_error-panics (gcm.open_sealed (take gcm.nonce_size buff) (drop gcm.nonce_size buff))
            h),
      λ h. absurd (ground arith),
    )
  ]

  -- A text that `AesGmc.Decrypt` or `Decrypt` can decode and has a key for.
  abbrev pub IsShort : Bytes → T → Type 0
  IsShort key text =
      (buff : Bytes) × (gcm : Aead) × (crypto.decode text ≡ some buff)
      × (crypto.new_gcm key ≡ some gcm)
      × (length buff < gcm.nonce_size)

  -- `Decrypt` never panics, whatever the text is. `AesGmc.Decrypt` panics exactly on the texts that
  -- decode to fewer bytes than a nonce, when the key is valid.
  pub decrypt-panics :
      (key : Bytes) (text : T)
      → (decrypt crypto key text ≢ panics)
        × ((aes_decrypt crypto key text ≡ panics) ↔ IsShort key text)
  unfolding decrypt aes_decrypt
  decrypt-panics key text = elim (Option-cases (crypto.decode text)) [
    | inl bad ↦
        rw (decrypt, aes_decrypt, bad)
          (λ h. cc, (λ h. cc, λ (buff, gcm, decoded, made, short). cc decoded))
    | inr (buff, decoded) ↦ elim (Option-cases (crypto.new_gcm key)) [
      | inl invalid ↦
          rw (decrypt, aes_decrypt, decoded, invalid)
            (λ h. cc, (λ h. cc, λ (b, gcm, decoded', made, short). cc made))
      | inr (gcm, made) ↦
          let panic = opened-panics_iff gcm buff in
          rw (decrypt, aes_decrypt, decoded, made)
            (
              checked_open-panics gcm buff,
              (
                λ h. (buff, gcm, refl, refl, panic.0 h),
                λ (b, g, decoded', made', short).
                    let same_buff = some-injective _ _ decoded' in
                    let same_gcm = some-injective _ _ made' in
                    panic.1 (
                      subst (λ (c : Aead). length buff < c.nonce_size) (sym same_gcm)
                        (subst (λ l. length l < g.nonce_size) (sym same_buff) short)),
              ),
            )
    ]
  ]
