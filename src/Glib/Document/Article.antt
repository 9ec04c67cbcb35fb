-- ===== src/Glib/Document/Article.antt =====
-- Which paragraphs of an article are kept.
use shopble_stellar.Common.{
  ◌≤◌, String, ◌≡◌, ◌≢◌, ◌↔◌, refl, inl, inr, Bool, Bool-cases, true, false, ltb, ◌==◌, string_eq,
  eq_iff, if◌then◌else◌, arith,
}
use Prim.Native.String.{len}
use shopble_stellar.Glib.Document.{Strings, keeps_paragraph}

keeps_rest :
    {P Q : Type 0} (caption source : Bool)
    → P
    → Q
    → ((if caption then false else (if source then false else true)) ≡ true)
      ↔ (P × Q × (caption ≡ false) × (source ≡ false))
keeps_rest true source p q = (λ h. cc, λ (p', q', c, s). cc c)
keeps_rest false true p q = (λ h. cc, λ (p', q', c, s). cc s)
keeps_rest false false p q = (λ h. (p, q, refl, refl), λ k. refl)

module _ (strings : Strings) where
  -- A paragraph that is kept: the test for short ones with a colon or a dash plays no part in it,
  -- since everything of less than 50 bytes has been dropped before.
  pub keeps_paragraph_iff :
      (para : String)
      → (keeps_paragraph strings para ≡ true) ↔ (
          (para ≢ "")
          × (50 ≤ len para)
          × (strings.is_photo_caption para ≡ false)
          × (strings.is_source para ≡ false))
  unfolding keeps_paragraph
  keeps_paragraph_iff para = elim (Bool-cases (para == "")) [
    | inl empty ↦
        rw empty
          (λ h. cc, λ (text, long, caption, source). absurd (text ((eq_iff para "").0 empty)))
    | inr other ↦
        let text : para ≢ "" = λ empty. cc ((eq_iff para "").1 empty, other) in
        elim (Bool-cases (ltb (len para) 50)) [
          | inl short ↦
              rw (other, short) (λ h. cc, λ (t, long, caption, source). absurd (ground arith))
          | inr long ↦
              let not_short : ltb (len para) 40 ≡ false = ground arith in
              let enough : 50 ≤ len para = ground arith in
              rw (other, long, not_short)
                (keeps_rest (strings.is_photo_caption para) (strings.is_source para) text enough)
        ]
  ]
