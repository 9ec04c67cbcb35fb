-- ===== src/Shared/Runner/Laws.antt =====
-- What a session says when its services have been stopped, and which closers run.
use shopble_stellar.Common.{
  ◌≤◌, String, ◌≡◌, ◌↔◌, refl, sym, ap, ◌∙◌, inl, inr, Bool, Bool-cases, true, false, Option,
  Option-cases, none, some, List, [], ◌∷◌, ◌++◌, All, length, ◌==◌, string_eq, eq_iff,
  if◌then◌else◌, arith,
}
use shopble_stellar.Shared.Runner.{
  Service, noted, end_all, end_session, before_stops, one_if_stopped, stop_ok_count, run_session,
  Closer, safe_close,
}

noted-kept :
    {E : Type 0} (name key : String) (err : Option E) (err_map : String → Option E)
    → noted name err err_map key ≡ none
    → err_map key ≡ none
unfolding noted
noted-kept name key none err_map h = h
noted-kept name key (some err) err_map h = elim (Bool-cases (name == key)) [
  | inl same ↦ absurd (cc (ap (λ (b : Bool). if b then some err else err_map key) (sym same), h))
  | inr other ↦ ap (λ (b : Bool). if b then some err else err_map key) (sym other) ∙ h
]

noted-here :
    {E : Type 0} (name : String) (err : Option E) (err_map : String → Option E)
    → noted name err err_map name ≡ none
    → err ≡ none
unfolding noted
noted-here name none err_map h = refl
noted-here name (some err) err_map h = absurd (
    cc (
      ap (λ (b : Bool). if b then some err else err_map name) (sym ((eq_iff name name).1 refl)),
      h,
    ))

module _ {E X : Type 0} where
  -- Every service stops without an error when the services are stopped one after the other.
  abbrev AllStop : List (Service E X) → X → Type 0
  AllStop [] x = Unit
  AllStop (service ∷ services) x = ((service.stop x).0 ≡ none) × AllStop services (service.stop x).1

  end_all-kept :
      (services : List (Service E X)) (err_map : String → Option E) (x : X) (key : String)
      → (end_all services err_map x).0 key ≡ none
      → err_map key ≡ none
  unfolding end_all
  end_all-kept [] err_map x key h = h
  end_all-kept (s ∷ services) err_map x key h =
      noted-kept s.name key (s.stop x).0 err_map (end_all-kept services _ (s.stop x).1 key h)

  -- A service without an entry in the map has stopped.
  end_all-AllStop :
      (services : List (Service E X)) (err_map : String → Option E) (x : X)
      → All (λ s. (end_all services err_map x).0 s.name ≡ none) services
      → AllStop services x
  unfolding end_all
  end_all-AllStop [] err_map x clean = tt
  end_all-AllStop (s ∷ services) err_map x (here, clean) = (
    noted-here s.name (s.stop x).0 err_map (end_all-kept services _ (s.stop x).1 s.name here),
    end_all-AllStop services _ (s.stop x).1 clean,
  )

  AllStop-end_all :
      (services : List (Service E X)) (err_map : String → Option E) (x : X)
      → AllStop services x
      → (end_all services err_map x).0 ≡ err_map
  unfolding end_all noted
  AllStop-end_all [] err_map x fine = refl
  AllStop-end_all (s ∷ services) err_map x (here, fine) =
      rw (end_all, here) (AllStop-end_all services err_map (s.stop x).1 fine)

  stop_ok_count_bound :
      (err_map : String → Option E) (services : List (Service E X))
      → stop_ok_count err_map services ≤ length services
  unfolding stop_ok_count one_if_stopped
  stop_ok_count_bound err_map [] = omega arith
  stop_ok_count_bound err_map (s ∷ services) =
      let rest = stop_ok_count_bound err_map services in
      elim (Option-cases (err_map s.name)) [
        | inl fine ↦ rw (stop_ok_count, fine) (omega arith)
        | inr (e, bad) ↦ rw (stop_ok_count, bad) (omega arith)
      ]

  stop_ok_count-All :
      (err_map : String → Option E) (services : List (Service E X))
      → (length services ≤ stop_ok_count err_map services)
        ↔ All (λ s. err_map s.name ≡ none) services
  unfolding stop_ok_count one_if_stopped
  stop_ok_count-All err_map [] = (λ h. tt, λ h. omega arith)
  stop_ok_count-All err_map (s ∷ services) =
      let rest = stop_ok_count-All err_map services in
      let bound = stop_ok_count_bound err_map services in
      elim (Option-cases (err_map s.name)) [
        | inl fine ↦
            rw (stop_ok_count, fine)
              (
                λ h. (refl, rest.0 (omega (arith, h))),
                λ (h, clean). let others = rest.1 clean in omega arith,
              )
        | inr (e, bad) ↦ rw (stop_ok_count, bad) (λ h. absurd (omega (arith, h)), λ h. cc (h.0))
      ]

  none_named :
      (services : List (Service E X)) (err_map : String → Option E)
      → ((key : String) → err_map key ≡ none)
      → All (λ s. err_map s.name ≡ none) services
  none_named [] err_map h = tt
  none_named (s ∷ services) err_map h = (h s.name, none_named services err_map h)

  -- `RunSession` says that all services have shut down exactly when every one of them stopped
  -- without an error, even where services share a name.
  run_session-AllStop_iff :
      (services : List (Service E X)) (x : X)
      → ((run_session services x).0 ≡ true) ↔ AllStop services (before_stops services x)
  unfolding run_session end_session
  run_session-AllStop_iff services x =
      let stopped = before_stops services x in
      let err_map = (end_all services (λ key. none) stopped).0 in
      let counted = stop_ok_count-All err_map services in
      (
        λ h. end_all-AllStop services (λ key. none) stopped (counted.0 (ground arith)),
        λ fine.
            let clean = AllStop-end_all services (λ key. none) stopped fine in
            let enough = counted.1 (none_named services err_map (λ key. ap (λ m. m key) clean)) in
            ground arith,
      )

module _ {X : Type 0} where
  -- No closer panics when they are called one after the other.
  abbrev pub AllReturn : List (Closer X) → X → Type 0
  AllReturn [] x = Unit
  AllReturn (closer ∷ closers) x = ((closer x).0 ≡ false) × AllReturn closers (closer x).1

  -- `SafeClose` stops at the first closer that panics: those before it and this one have run, and
  -- none of those registered after it does.
  pub safe_close-panicked :
      (before after : List (Closer X)) (closer : Closer X) (x : X)
      → AllReturn before x
      → (closer (safe_close before x)).0 ≡ true
      → safe_close (before ++ (closer ∷ after)) x ≡ (closer (safe_close before x)).1
  unfolding safe_close
  safe_close-panicked [] after closer x fine panics = rw (safe_close, panics) refl
  safe_close-panicked (c ∷ before) after closer x (here, fine) panics =
      let returns : safe_close (c ∷ before) x ≡ safe_close before (c x).1 =
        rw (safe_close, here) refl in
      rw (safe_close, here)
        (safe_close-panicked before after closer (c x).1 fine
          (ap (λ y. (closer y).0) (sym returns) ∙ panics))
