-- ===== src/Examples/Documents.antt =====
-- Texts as they are, for the test of the cleaning of documents, and a cipher that does nothing.
use shopble_stellar.Common.{
  ℕ, zero, suc, ◌≡◌, ◌≢◌, ◌↔◌, refl, sym, ap, ◌∙◌, subst, some, [], ◌∷◌, length,
}
use mathlib.Core.Option.{some-injective}
use shopble_stellar.Glib.Secret.{
  Bytes, Aead, Crypto, Result, encrypt, aes_encrypt, decrypt, aes_decrypt,
}
use shopble_stellar.Glib.Secret.Laws.{decrypt-encrypt, decrypt-panics, IsShort}
use shopble_stellar.Glib.Secret.Laws

abbrev zeros : ℕ → Bytes
zeros zero = []
zeros (suc n) = 0 ∷ zeros n

length-zeros : (n : ℕ) → length (zeros n) ≡ n
length-zeros zero = refl
length-zeros (suc n) = ap suc (length-zeros n)

abbrev plain_gcm : Aead
plain_gcm = record {
  nonce_size = 12;
  seal = λ nonce buff. buff;
  open_sealed = λ nonce buff. some buff;
}

abbrev crypto : Crypto Bytes ℕ
crypto = record {
  new_gcm = λ key. some plain_gcm;
  random = λ n x. (some (zeros n), suc x);
  encode = λ b. b;
  decode = λ b. some b;
}

crypto-IsLawful : Laws.IsLawful crypto
crypto-IsLawful = record {
  decode-encode = λ b. refl;
  open-seal = λ key gcm nonce buff made sized.
      subst (λ (g : Aead). g.open_sealed nonce (g.seal nonce buff) ≡ some buff)
        (some-injective _ _ made) refl;
  gcm_nonce_size = λ key gcm made. ap (λ (g : Aead). g.nonce_size) (sym (some-injective _ _ made));
  length-random = λ n x b given. ap length (sym (some-injective _ _ given)) ∙ length-zeros n;
}

decrypt_example :
    (text : Bytes) × ((encrypt crypto [] (7 ∷ []) 0).0 ≡ Result.fine text)
    × ((aes_encrypt crypto [] (7 ∷ []) 0).0 ≡ Result.fine text)
    × (decrypt crypto [] text ≡ Result.fine (7 ∷ []))
    × (aes_decrypt crypto [] text ≡ Result.fine (7 ∷ []))
decrypt_example =
    decrypt-encrypt crypto crypto-IsLawful [] (7 ∷ []) (zeros 12) plain_gcm 0 refl refl

short_example :
    (decrypt crypto [] (1 ∷ []) ≢ Result.panics)
    × ((aes_decrypt crypto [] (1 ∷ []) ≡ Result.panics) ↔ IsShort crypto [] (1 ∷ []))
short_example = decrypt-panics crypto [] (1 ∷ [])
