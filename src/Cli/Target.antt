-- ===== src/Cli/Target.antt =====
-- What a report of the Python transport of conformance_cli.py says of the module under test.
-- exports do when called, and which of them it has.
use ars_solana.Prelude.{
  ◌≡◌, ◌↔◌, refl, ap, ◌∙◌, inl, inr, ℕ, ◌+◌, String, Bool, true, false, ◌&&◌, Option, none, some,
  List, length, All, All-map, ◌==ℤ◌, ==ℤ_iff, str_eq, if◌then◌else◌, Exception, ok, raise,
  ok-injective, raise-injective, Result-cases, hex_text,
}
use text.Mathlib.TextEquality.{eq_iff}
use ars_solana.Conformance.{
  StateVector, IllegalVector, ViewBondVector, ConformanceReport, report_ok,
}
use ars_solana.Conformance.Vectors.{state_vectors, illegal_vectors, loaded_vectors}
use ars_solana.Conformance.SelfTest.{compare_hex}
use ars_solana.Conformance.Report.{harness_iff, harness_returns}
use ars_solana.Cli.Python.{
  TargetModule, or_zero, params_of, target_state_failure, target_illegal_failure,
  target_bond_failure, run_target,
}

module _ {P : Type 0} (m : TargetModule P) (agent : P) where
  open m use {Job, replay, state_of, released_of, is_target_error, build_view_bond}

  -- The module's answer to a log is the job that the vector expects.
  abbrev pub StateConforms : StateVector → Type 0
  StateConforms v =
      (job : Job) × (replay v.log ≡ ok job)
      × (state_of job ≡ ok v.expected_state)
      × (or_zero (released_of job) ≡ v.expected_released_atomic)

  -- The module refuses a log with its own transition error.
  abbrev pub Refuses : IllegalVector → Type 0
  Refuses v = (e : Exception) × (replay v.log ≡ raise e) × (is_target_error e ≡ true)

  -- The module's bytes are, in hexadecimal, those that the vector expects.
  abbrev pub Encodes : ViewBondVector → Type 0
  Encodes v =
      (bytes : List ℕ) × (build_view_bond (params_of m agent v) ≡ ok bytes)
      × (hex_text bytes ≡ v.expected_data_hex)

  passed : (b : Bool) (text : String) → (if b then none else some text) ≡ none → b ≡ true
  passed true text h = refl
  passed false text h = cc

  both : (a b : Bool) → (a && b) ≡ true → (a ≡ true) × (b ≡ true)
  both true b h = (refl, h)
  both false b h = cc

  state_sound : (v : StateVector) → target_state_failure m agent v ≡ none → StateConforms v
  unfolding target_state_failure
  state_sound v h = elim (Result-cases (replay v.log)) [
    | inr (e, p) ↦ let h' = rw (target_state_failure, p) at h in cc
    | inl (job, p) ↦ elim (Result-cases (state_of job)) [
      | inr (e, q) ↦ let h' = rw (target_state_failure, p, q) at h in cc
      | inl (state, q) ↦
          let h' = rw (target_state_failure, p, q) at h in
          let (same, same') =
            both (str_eq state v.expected_state)
              (or_zero (released_of job) ==ℤ v.expected_released_atomic)
              (passed
                (str_eq state v.expected_state
                  && (or_zero (released_of job) ==ℤ v.expected_released_atomic))
                _ h') in
          (
            job,
            p,
            q ∙ ap ok ((eq_iff state v.expected_state).0 same),
            (==ℤ_iff (or_zero (released_of job)) v.expected_released_atomic).0 same',
          )
    ]
  ]

  state_complete : (v : StateVector) → StateConforms v → target_state_failure m agent v ≡ none
  unfolding target_state_failure
  state_complete v (job, p, q, e) =
      rw
        (
          target_state_failure,
          p,
          q,
          (eq_iff v.expected_state v.expected_state).1 refl,
          (==ℤ_iff (or_zero (released_of job)) v.expected_released_atomic).1 e,
        )
        refl

  illegal_iff : (v : IllegalVector) → (target_illegal_failure m agent v ≡ none) ↔ Refuses v
  unfolding target_illegal_failure
  illegal_iff v = elim (Result-cases (replay v.log)) [
    | inl (job, p) ↦ rw (target_illegal_failure, p) (λ h. cc, λ (e, q, r). cc)
    | inr (e, p) ↦
        rw (target_illegal_failure, p)
          (
            λ h. (e, refl, passed (is_target_error e) _ h),
            λ (x, q, r). rw (ap is_target_error (raise-injective q) ∙ r) refl,
          )
  ]

  bond_iff : (v : ViewBondVector) → (target_bond_failure m agent v ≡ ok none) ↔ Encodes v
  unfolding target_bond_failure
  bond_iff v = elim (Result-cases (build_view_bond (params_of m agent v))) [
    | inr (e, p) ↦ rw (target_bond_failure, p) (λ h. cc, λ (bytes, q, r). cc)
    | inl (bytes, p) ↦
        rw (target_bond_failure, p)
          (
            λ h. (
              bytes,
              refl,
              (eq_iff (hex_text bytes) v.expected_data_hex).0
                  (passed (str_eq (hex_text bytes) v.expected_data_hex) _ (ok-injective h)),
            ),
            λ (bs, q, r).
                rw
                  ((eq_iff (hex_text bytes) v.expected_data_hex).1
                    (ap hex_text (ok-injective q) ∙ r))
                  refl,
          )
  ]

  bond_returns :
      (v : ViewBondVector)
      → (bytes : List ℕ) × (build_view_bond (params_of m agent v) ≡ ok bytes)
      → (o : Option String) × (target_bond_failure m agent v ≡ ok o)
  unfolding target_bond_failure
  bond_returns v (bytes, e) = (compare_hex v (hex_text bytes), rw (target_bond_failure, e) refl)

  -- A module whose encoder returns on the four pairs gets a report, which accounts for the 5 logs,
  -- the 3 illegal logs and the 4 encodings, and is ok exactly if the module replays each log to the
  -- expected state and amount, refuses each illegal log with its own transition error, and encodes
  -- each pair as expected.
  pub run_target_iff :
      All
        (λ v. (bytes : List ℕ) × (build_view_bond (params_of m agent v) ≡ ok bytes))
        loaded_vectors
      → (r : ConformanceReport) × (run_target m agent ≡ ok r)
        × (r.state_passed + length r.state_failed ≡ 5)
        × (r.illegal_passed + length r.illegal_failed ≡ 3)
        × (r.view_bond_passed + length r.view_bond_failed ≡ 4)
        × ((report_ok r ≡ true) ↔ (
            All StateConforms state_vectors
            × All Refuses illegal_vectors
            × All Encodes loaded_vectors))
  unfolding run_target
  run_target_iff builds =
      let (r, h) =
        harness_returns state_vectors illegal_vectors loaded_vectors (target_state_failure m agent)
          (target_illegal_failure m agent) (target_bond_failure m agent)
          (All-map loaded_vectors bond_returns builds) in
      let (a, b, c, clean) =
        harness_iff state_vectors illegal_vectors loaded_vectors (target_state_failure m agent)
          (target_illegal_failure m agent) (target_bond_failure m agent) r h in
      (
        r,
        h,
        a,
        b,
        c,
        (
          λ e.
              let (x, y, z) = clean.0 e in
              (
                All-map state_vectors (λ v p. state_sound v (ok-injective p)) x,
                All-map illegal_vectors (λ v p. (illegal_iff v).0 (ok-injective p)) y,
                All-map loaded_vectors (λ v p. (bond_iff v).0 p) z,
              ),
          λ (x, y, z). clean.1 (
            All-map state_vectors (λ v p. ap ok (state_complete v p)) x,
            All-map illegal_vectors (λ v p. ap ok ((illegal_iff v).1 p)) y,
            All-map loaded_vectors (λ v p. (bond_iff v).1 p) z,
          ),
        ),
      )
