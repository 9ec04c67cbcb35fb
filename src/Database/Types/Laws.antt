-- ===== src/Database/Types/Laws.antt =====
-- What is written is what is read.
use shopble_stellar.Common.{ℕ, String, ◌≡◌, refl, ◌⊎◌, inl, inr, Option, List, ◌∷◌, ◌++◌, map}
use shopble_stellar.Common.Int.{ℤ}
use shopble_stellar.Database.Types.{
  Pg, valued, or_plain, ok, set_value, scan_value, array_value, string_array_scan,
  big_int_array_scan, json_value, json_scan, json_array_value, json_array_scan, text_value,
  normalized_text_value, text_scan,
}

-- What pgtype sets and gives a value of, it reads back from that value.
pub record IsLawful {G V E : Type 0} (pg : Pg G V E) : Type 0 where
  pub scan-value :
      (g : G) {p : pg.Held} {v : Option V}
      → pg.set g ≡ inr p
      → pg.value p ≡ inr v
      → (p' : pg.Held) × (pg.scan v ≡ inr p') × (pg.get p' ≡ g)

or_plain-ok : {E A : Type 0} (x : E ⊎ A) {a : A} → or_plain x ≡ ok a → x ≡ inr a
or_plain-ok (inl e) h = cc
or_plain-ok (inr a) h = cc h

module _ {G V E : Type 0} (pg : Pg G V E) (lawful : IsLawful pg) where
  valued_lem :
      (held : E ⊎ pg.Held) {v : Option V}
      → valued pg held ≡ ok v
      → (p : pg.Held) × (held ≡ inr p) × (pg.value p ≡ inr v)
  unfolding valued
  valued_lem (inl e) h = cc
  valued_lem (inr p) h = (p, refl, or_plain-ok (pg.value p) h)

  scan_value-set_value : (g : G) {v : Option V} → set_value pg g ≡ ok v → scan_value pg v ≡ ok g
  unfolding set_value scan_value
  scan_value-set_value g h =
      let (p, set, value) = valued_lem (pg.set g) h in
      let (p', scan, same) = lawful.scan-value g set value in rw (scan, same)

module _ {V E : Type 0} where
  -- What a type writes for a value it reads back from the column: arrays of texts and of whole
  -- numbers that are not empty, and bytes of JSON as they were, and texts trimmed, or trimmed and
  -- in lower case. An array of JSON is put behind what the array holds already.
  pub scan-value_lem :
      (texts : Pg (List String) V E) (numbers : Pg (List ℤ) V E) (bytes : Pg (List ℕ) V E)
      (arrays : Pg (List (List ℕ)) V E) (text : Pg String V E)
      (trim_space to_lower : String → String) (no_texts : texts.Held) (no_numbers : numbers.Held)
      → IsLawful texts
      → IsLawful numbers
      → IsLawful bytes
      → IsLawful arrays
      → IsLawful text
      → ((x : String) (xs : List String) (v : Option V)
          → array_value texts no_texts (x ∷ xs) ≡ ok v
          → string_array_scan texts v ≡ ok (x ∷ xs))
        × ((x : ℤ) (xs : List ℤ) (v : Option V) (convert : ℤ → ℤ)
            → array_value numbers no_numbers (x ∷ xs) ≡ ok v
            → big_int_array_scan convert numbers v ≡ ok (map convert (x ∷ xs)))
        × ((b : ℕ) (bs : List ℕ) (v : Option V)
            → json_value bytes (b ∷ bs) ≡ ok v
            → json_scan bytes v ≡ ok (b ∷ bs))
        × ((held : List (List ℕ)) (j : List ℕ) (js : List (List ℕ)) (v : Option V)
            → json_array_value arrays (j ∷ js) ≡ ok v
            → json_array_scan arrays held v ≡ ok (held ++ (j ∷ js)))
        × ((t : String) (v : Option V)
            → text_value trim_space to_lower text t ≡ ok v
            → text_scan trim_space to_lower text v ≡ ok (trim_space t))
        × ((t : String) (v : Option V)
            → normalized_text_value trim_space to_lower text t ≡ ok v
            → text_scan trim_space to_lower text v ≡ ok (trim_space (to_lower t)))
  unfolding array_value string_array_scan big_int_array_scan json_value json_scan json_array_value
      json_array_scan text_value normalized_text_value text_scan
  scan-value_lem texts numbers bytes arrays text trim_space to_lower no_texts no_numbers l1 l2 l3 l4
        l5 =
      (
        λ x xs v h. scan_value-set_value texts l1 (x ∷ xs) h,
        λ x xs v convert h. rw (scan_value-set_value numbers l2 (x ∷ xs) h),
        λ b bs v h. scan_value-set_value bytes l3 (b ∷ bs) h,
        λ held j js v h. rw (scan_value-set_value arrays l4 (j ∷ js) h),
        λ t v h. scan_value-set_value text l5 (trim_space t) h,
        λ t v h. scan_value-set_value text l5 (trim_space (to_lower t)) h,
      )
