-- ===== src/Shared/Cache/Laws.antt =====
-- What is put into the cache is found there.
use shopble_stellar.Common.{
  ℕ, String, ◌≡◌, ◌≢◌, refl, ap, ◌∙◌, ◌⊎◌, inl, inr, Bool, true, false, ltb, Option, none, some,
  arith, ◌==◌, string_eq, eq_iff, if◌then◌else◌,
}
use shopble_stellar.Shared.Cache.{
  Found, redis_nil, fails, holds, Redis, JsonEncoder, CacheError, Cached, ok, err, got, replied,
  stored, decoded, counted, get_value, exists, set, set_ex, delete,
}

-- What redis answers for what it holds.
abbrev pub answer : {B E : Type 0} → Option B → Found B E
answer none = redis_nil
answer (some bytes) = holds bytes

abbrev pub count : {B : Type 0} → Option B → ℕ
count none = 0
count (some bytes) = 1

-- The documented behaviour of redis while no key runs out, where `held` is what it holds: every
-- command may fail with an error. And that of JSON, for values that can be encoded.
pub record IsLawful {T B E X : Type 0} (redis : Redis B E X) (encoder : JsonEncoder T B E)
    (held : X → String → Option B) : Type 0 where
  pub get_lem :
      (key : String) (x : X)
      → ((e : E) × ((redis.get key x).0 ≡ fails e)) ⊎ ((redis.get key x).0 ≡ answer (held x key))
  pub exists_lem :
      (key : String) (x : X)
      → ((e : E) × ((redis.exists key x).0 ≡ inl e))
        ⊎ ((redis.exists key x).0 ≡ inr (count (held x key)))
  pub set_lem :
      (key : String) (bytes : B) (timeout : ℕ) (x : X) {x' : X}
      → redis.set key bytes timeout x ≡ (none, x')
      → (j : String) → held x' j ≡ (if key == j then some bytes else held x j)
  pub del_lem :
      (key : String) (x : X) {x' : X}
      → redis.del key x ≡ (none, x')
      → (j : String) → held x' j ≡ (if key == j then none else held x j)
  pub decode-encode :
      (t : T) {bytes : B} → encoder.encode t ≡ inr bytes → encoder.decode bytes ≡ inr t

module _ {T B E X : Type 0} (redis : Redis B E X) (encoder : JsonEncoder T B E)
    (held : X → String → Option B) (lawful : IsLawful redis encoder held) where
  replied-ok : (r : Option E × X) {x' : X} → replied redis encoder r ≡ (ok tt, x') → r ≡ (none, x')
  unfolding replied
  replied-ok (none, x) h = ap (λ (p : Cached E Unit × X). (none, p.1)) h
  replied-ok (some e, x) h = absurd (cc (ap (λ (p : Cached E Unit × X). p.0) h))

  set_ex-ok :
      (key : String) (value : T) (timeout : ℕ) (x : X) (o : E ⊎ B) {x' : X}
      → stored redis encoder key timeout o x ≡ (ok tt, x')
      → (bytes : B) × (o ≡ inr bytes) × (redis.set key bytes timeout x ≡ (none, x'))
  unfolding stored
  set_ex-ok key value timeout x (inl e) h = absurd (cc (ap (λ (p : Cached E Unit × X). p.0) h))
  set_ex-ok key value timeout x (inr bytes) h =
      (bytes, refl, replied-ok (redis.set key bytes timeout x) h)

  -- What `Get` and `Exists` answer: an error that redis gave, or this.
  abbrev pub GetsOrFails : String → X → Cached E T → Type 0
  GetsOrFails key x c =
      ((e : E) × ((redis.get key x).0 ≡ fails e)
        × ((get_value redis encoder key x).0 ≡ err (CacheError.plain e)))
      ⊎ ((get_value redis encoder key x).0 ≡ c)

  abbrev pub ExistsOrFails : String → X → Bool → Type 0
  ExistsOrFails key x b =
      ((e : E) × ((redis.exists key x).0 ≡ inl e)
        × ((exists redis encoder key x).0 ≡ err (CacheError.plain e)))
      ⊎ ((exists redis encoder key x).0 ≡ ok b)

  got-answer :
      (r : Found B E × X) (f : Found B E)
      → r.0 ≡ f
      → (got redis encoder r).0 ≡ (got redis encoder (f, r.1)).0
  got-answer r f h = ap (λ g. (got redis encoder (g, r.1)).0) h

  counted-answer :
      (r : (E ⊎ ℕ) × X) (f : E ⊎ ℕ)
      → r.0 ≡ f
      → (counted redis encoder r).0 ≡ (counted redis encoder (f, r.1)).0
  counted-answer r f h = ap (λ g. (counted redis encoder (g, r.1)).0) h

  get_value-held :
      (key : String) (x : X) (o : Option B) (c : Cached E T)
      → held x key ≡ o
      → ((y : X) → (got redis encoder (answer o, y)).0 ≡ c)
      → GetsOrFails key x c
  unfolding get_value got
  get_value-held key x o c here answers = elim (lawful.get_lem key x) [
    | inl (e, broken) ↦ inl (e, broken, got-answer (redis.get key x) (fails e) broken)
    | inr found ↦ inr (
        got-answer (redis.get key x) (answer o) (found ∙ ap answer here)
        ∙ answers (redis.get key x).1)
  ]

  exists-held :
      (key : String) (x : X) (o : Option B) → held x key ≡ o → ExistsOrFails key x (ltb 0 (count o))
  unfolding exists counted
  exists-held key x o here = elim (lawful.exists_lem key x) [
    | inl (e, broken) ↦ inl (e, broken, counted-answer (redis.exists key x) (inl e) broken)
    | inr found ↦
        inr (
          counted-answer (redis.exists key x) (inr (count o))
            (found ∙ ap (λ p. inr (count p)) here))
  ]

  abbrev pub read : E ⊎ T → Cached E T
  read (inl e) = err (CacheError.plain e)
  read (inr t) = ok t

  -- What `Get` answers without an error of redis, for what is held.
  abbrev pub expected : Option B → Cached E T
  expected none = err CacheError.data_not_found
  expected (some bytes) = read (encoder.decode bytes)

  decoded-read : (r : E ⊎ T) → decoded redis encoder r ≡ read r
  unfolding decoded
  decoded-read (inl e) = refl
  decoded-read (inr t) = refl

  got-expected : (o : Option B) (y : X) → (got redis encoder (answer o, y)).0 ≡ expected o
  unfolding got
  got-expected none y = refl
  got-expected (some bytes) y = decoded-read (encoder.decode bytes)

  -- While no key runs out: after a `Set` that returns no error, each command fails with an error that
  -- redis gives, or else `Get` of the key gives the value, `Exists` of it is true, and `Get` of any
  -- other key answers by what redis held for it before.
  pub get_value-set :
      (key : String) (value : T) (timeout : ℕ) (x x' : X)
      → set redis encoder key value timeout x ≡ (ok tt, x')
      → GetsOrFails key x' (ok value)
        × ExistsOrFails key x' true
        × ((j : String) → key ≢ j → GetsOrFails j x' (expected (held x j)))
  unfolding set set_ex got decoded
  get_value-set key value timeout x x' h =
      let (bytes, encodes, sets) = set_ex-ok key value timeout x (encoder.encode value) h in
      let after = lawful.set_lem key bytes timeout x sets in
      let here : held x' key ≡ some bytes = after key ∙ ground (arith, eq_iff key key) in
      let decodes = lawful.decode-encode value encodes in
      (
        get_value-held key x' (some bytes) (ok value) here (λ y. rw decodes refl),
        exists-held key x' (some bytes) here,
        λ j other.
            get_value-held j x' (held x j) (expected (held x j))
              (after j ∙ ground (arith, eq_iff key j)) (got-expected (held x j)),
      )

  -- While no key runs out: after a `Delete` that returns no error, `Get` of its key is
  -- `ErrNotFound` and `Exists` of it is false, unless redis fails.
  pub get_value-delete :
      (key : String) (x x' : X)
      → delete redis encoder key x ≡ (ok tt, x')
      → GetsOrFails key x' (err CacheError.data_not_found) × ExistsOrFails key x' false
  unfolding delete got
  get_value-delete key x x' h =
      let gone : held x' key ≡ none =
        lawful.del_lem key x (replied-ok (redis.del key x) h) key
        ∙ ground (arith, eq_iff key key) in
      (
        get_value-held key x' none (err CacheError.data_not_found) gone (λ y. refl),
        exists-held key x' none gone,
      )
