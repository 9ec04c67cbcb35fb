-- ===== src/Shared/Failure/Wrapping.antt =====
-- What `OurErrorCode.Wrap` does to a code that is shared: it writes into the error that every value
-- of the code points to.
use shopble_stellar.Common.{
  ℕ, zero, suc, String, ◌<>◌, ◌≡◌, ◌≢◌, ◌↔◌, refl, sym, ap, ◌∙◌, subst, inl, inr, Bool-cases, none,
  some, ◌==◌, nat_eq, nat_beq_iff,
}
use shopble_stellar.Shared.Failure.{
  GoError, plain, ours, coded, OurError, Heap, set_cell, wrap, error_text,
}
use shopble_stellar.Shared.Failure.Laws.{
  EndingChain, ends, of_ours, of_code, error_text-EndingChain,
}

module _ {V : Type 0} (h : Heap V) (p : ℕ) where
  -- The chain of an error comes to `p`.
  pub data Meets : GoError → Type 0 where
    at_ours : Meets (ours p)
    at_code : (code : String) → Meets (coded code p)
    past_ours : (q : ℕ) → p ≢ q → Meets (h.cells q).actual → Meets (ours q)
    past_code : (code : String) (q : ℕ) → p ≢ q → Meets (h.cells q).actual → Meets (coded code q)

  module _ (err : GoError) where
    abbrev after : Heap V
    after = set_cell p (record (h.cells p) { actual = err }) h

    cells-after : (q : ℕ) → p ≢ q → after.cells q ≡ h.cells q
    cells-after q other = elim (Bool-cases (p == q)) [
      | inl same ↦ absurd (other ((nat_beq_iff p q).0 same))
      | inr away ↦ rw away refl
    ]

    cell-after : (after.cells p).actual ≡ err
    cell-after = rw ((nat_beq_iff p p).1 refl) refl

    -- An error without a text has no text with a message before it.
    no_text :
        (fuel : ℕ) (q : ℕ) (inner : GoError)
        → (after.cells q).actual ≡ inner
        → error_text fuel after inner ≡ none
        → (elim (error_text fuel after (after.cells q).actual) [
          | none ↦ none
          | some text ↦ some ((after.cells q).message <> (" | " <> text))
        ])
          ≡ none
    no_text fuel q inner same nothing =
        let gone : error_text fuel after (after.cells q).actual ≡ none =
          ap (error_text fuel after) same ∙ nothing in
        rw gone refl

    -- Once the wrapped error leads back to the code, there is a cycle.
    cycle : Meets err → (fuel : ℕ) (e : GoError) → Meets e → error_text fuel after e ≡ none
    unfolding error_text
    cycle loop zero e meets = refl
    cycle loop (suc fuel) (plain text) meets = elim meets [ ]
    cycle loop (suc fuel) (ours p) at_ours =
        no_text fuel p err cell-after (cycle loop fuel err loop)
    cycle loop (suc fuel) (coded c p) (at_code code) =
        no_text fuel p err cell-after (cycle loop fuel err loop)
    cycle loop (suc fuel) (ours q) (past_ours r other meets) =
        no_text fuel q (h.cells q).actual (ap (λ (e : OurError V). e.actual) (cells-after q other))
          (cycle loop fuel (h.cells q).actual meets)
    cycle loop (suc fuel) (coded c q) (past_code code r other meets) =
        no_text fuel q (h.cells q).actual (ap (λ (e : OurError V). e.actual) (cells-after q other))
          (cycle loop fuel (h.cells q).actual meets)

    as_before :
        (q n : ℕ)
        → p ≢ q
        → EndingChain after (h.cells q).actual n
        → EndingChain after (after.cells q).actual n
    as_before q n other chain =
        subst (λ (e : OurError V). EndingChain after e.actual n) (sym (cells-after q other)) chain

    -- Otherwise the chains that do not meet the code are as they were.
    EndingChain-after :
        (e : GoError) (n : ℕ) → (Meets e → ⊥) → EndingChain h e n → EndingChain after e n
    EndingChain-after (plain words) n clear (ends text) = ends words
    EndingChain-after (ours q) n clear (of_ours r m rest) =
        let other : p ≢ q = λ same. clear (subst (λ x. Meets (ours x)) same at_ours) in
        of_ours q m (
          as_before q m other (
            EndingChain-after (h.cells q).actual m (λ meets. clear (past_ours q other meets)) rest))
    EndingChain-after (coded c q) n clear (of_code code r m rest) =
        let other : p ≢ q = λ same. clear (subst (λ x. Meets (coded c x)) same (at_code c)) in
        of_code c q m (
          as_before q m other (
            EndingChain-after (h.cells q).actual m (λ meets. clear (past_code c q other meets))
              rest))

  -- For an error whose chain ends, the error that `Wrap` returns has a text exactly when that
  -- chain does not come to the code itself. Otherwise the code is left in a cycle, which
  -- `Error` follows forever.
  pub wrap-error_text_iff :
      (code : String) (err : GoError) (n : ℕ)
      → EndingChain h err n
      → let (wrapped, h') = wrap code p (some err) h in
        ((fuel : ℕ) × (text : String) × (error_text fuel h' wrapped ≡ some text)) ↔ (Meets err → ⊥)
  unfolding wrap
  wrap-error_text_iff code err n chain = (
    λ (fuel, text, printed) meets. cc (cycle err meets fuel (coded code p) (at_code code), printed),
    λ clear.
        let below = EndingChain-after err err n clear chain in
        let whole =
          of_code code p n
            (subst (λ e. EndingChain (after err) e n) (sym (cell-after err)) below) in
        let (text, printed) = error_text-EndingChain (after err) (coded code p) (suc n) whole in
        (suc (suc n), text, printed),
  )

module _ {V : Type 0} where
  message-after :
      (h : Heap V) (p : ℕ) (err : GoError) → ((after h p err).cells p).message ≡ (h.cells p).message
  message-after h p err = rw ((nat_beq_iff p p).1 refl) refl

  text_of_code :
      (h : Heap V) (p : ℕ) (code msg text : String)
      → (h.cells p).actual ≡ plain text
      → (h.cells p).message ≡ msg
      → error_text 2 h (coded code p) ≡ some (msg <> (" | " <> text))
  unfolding error_text
  text_of_code h p code msg text cause named =
      let inner : error_text 1 h (h.cells p).actual ≡ some text = ap (error_text 1 h) cause in
      rw (error_text, inner, named) refl

  -- A code has one error for the whole program: when two callers wrap plain errors in the same
  -- code, the error that the first one holds prints the second one's cause from then on.
  pub wrap-shared :
      (h : Heap V) (p : ℕ) (code first second : String)
      → let (held, h1) = wrap code p (some (plain first)) h in
        let (other, h2) = wrap code p (some (plain second)) h1 in
        (error_text 2 h1 held ≡ some ((h.cells p).message <> (" | " <> first)))
        × (error_text 2 h2 held ≡ some ((h.cells p).message <> (" | " <> second)))
  unfolding wrap
  wrap-shared h p code first second =
      let h1 = after h p (plain first) in
      (
        text_of_code h1 p code (h.cells p).message first (cell-after h p (plain first))
            (message-after h p (plain first)),
        text_of_code (after h1 p (plain second)) p code (h.cells p).message second
            (cell-after h1 p (plain second))
            (message-after h1 p (plain second) ∙ message-after h p (plain first)),
      )
