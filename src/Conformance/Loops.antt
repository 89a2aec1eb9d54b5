-- ===== src/Conformance/Loops.antt =====
-- The loops of the harness of conformance.py, by the failures that their bodies find.
use ars_solana.Prelude.{
  ℕ, suc, ◌+◌, ◌≡◌, refl, sym, ap, ◌∙◌, String, Option, none, some, List, [], ◌∷◌, ◌++◌, map,
  length, inl, inr, Result, ok, Result-cases, ◌>>=◌, arith,
}
use mathlib.Core.Path.{ap₂, fun_ext}
use mathlib.Core.List.{append-nil, append_assoc}
use ars_solana.Conformance.{
  StateVector, IllegalVector, ViewBondVector, ConformanceReport, add_state, add_illegal,
  add_view_bond, run_vectors, harness, empty_report,
}

abbrev pub passes : List (Option String) → ℕ
passes [] = 0
passes (none ∷ os) = suc (passes os)
passes (some text ∷ os) = passes os

abbrev pub failures : List (Option String) → List String
failures [] = []
failures (none ∷ os) = failures os
failures (some text ∷ os) = text ∷ failures os

abbrev pub report_of :
    List (Option String) → List (Option String) → List (Option String) → ConformanceReport
report_of states illegals bonds = record {
  state_passed = passes states;
  state_failed = failures states;
  illegal_passed = passes illegals;
  illegal_failed = failures illegals;
  view_bond_passed = passes bonds;
  view_bond_failed = failures bonds;
}

-- The failures found, or the exception of the first body that raised.
abbrev pub verdicts :
    {V : Type 0} → (V → Result (Option String)) → List V → Result (List (Option String))
verdicts body [] = ok []
verdicts body (v ∷ vs) = body v >>= λ failure. verdicts body vs >>= λ os. ok (failure ∷ os)

-- A loop that counts and appends through `add`, from a report with these two values.
module _ {V : Type 0} (add : ConformanceReport → Option String → ConformanceReport)
    (with_values : ℕ → List String → ConformanceReport)
    (counts : (n : ℕ) (fs : List String) → add (with_values n fs) none ≡ with_values (suc n) fs)
    (appends : (n : ℕ) (fs : List String) (text : String)
      → add (with_values n fs) (some text) ≡ with_values n (fs ++ text ∷ []))
    (body : V → Result (Option String)) where
  abbrev total : ℕ → List String → List (Option String) → ConformanceReport
  total n fs os = with_values (n + passes os) (fs ++ failures os)

  loop_lem :
      (vs : List V) (n : ℕ) (fs : List String)
      → run_vectors add body vs (with_values n fs) ≡ (verdicts body vs >>= λ os. ok (total n fs os))
  unfolding run_vectors
  loop_lem [] n fs = ap ok (ap₂ with_values (omega arith) (sym (append-nil fs)))
  loop_lem (v ∷ vs) n fs = elim (Result-cases (body v)) [
    | inr (x, e) ↦ rw e refl
    | inl (none, e) ↦
        rw (e, counts n fs)
          (loop_lem vs (suc n) fs
            ∙ after vs none (total n fs)
                (λ os. ap (λ m. with_values m (fs ++ failures os)) (omega arith)))
    | inl (some text, e) ↦
        rw (e, appends n fs text)
          (loop_lem vs n (fs ++ text ∷ [])
            ∙ after vs (some text) (total n fs) (λ os.
              ap (with_values (n + passes os)) (append_assoc fs (text ∷ []) (failures os))))
  ]
    where
      after :
          (vs : List V) (o : Option String) {f : List (Option String) → ConformanceReport}
          (g : List (Option String) → ConformanceReport)
          → ((os : List (Option String)) → f os ≡ g (o ∷ os))
          → (verdicts body vs >>= λ os. ok (f os))
            ≡ (verdicts body vs >>= (λ os. ok (o ∷ os)) >>= λ os. ok (g os))
      after vs o g h = elim (Result-cases (verdicts body vs)) [
        | inl (os, e) ↦ rw e (ap ok (h os))
        | inr (x, e) ↦ rw e refl
      ]

  loop_from_empty :
      (vs : List V)
      → run_vectors add body vs (with_values 0 [])
        ≡ (verdicts body vs >>= λ os. ok (with_values (passes os) (failures os)))
  loop_from_empty vs =
      loop_lem vs 0 []
      ∙ ap (λ g. verdicts body vs >>= λ os. ok (g os))
          (fun_ext (λ os. ap (λ n. with_values n (failures os)) (omega arith)))

pub verdicts_pure :
    {V : Type 0} (f : V → Option String) (vs : List V) → verdicts (λ v. ok (f v)) vs ≡ ok (map f vs)
verdicts_pure f [] = refl
verdicts_pure f (v ∷ vs) = rw (verdicts_pure f vs) refl

pub passes_total : (os : List (Option String)) → passes os + length (failures os) ≡ length os
passes_total [] = omega arith
passes_total (none ∷ os) = omega (arith, passes_total os)
passes_total (some text ∷ os) = omega (arith, passes_total os)

pure_loop :
    {V : Type 0} (add : ConformanceReport → Option String → ConformanceReport)
    (with_values : ℕ → List String → ConformanceReport)
    → ((n : ℕ) (fs : List String) → add (with_values n fs) none ≡ with_values (suc n) fs)
    → ((n : ℕ) (fs : List String) (text : String)
        → add (with_values n fs) (some text) ≡ with_values n (fs ++ text ∷ []))
    → (f : V → Option String) (vs : List V)
    → run_vectors add (λ v. ok (f v)) vs (with_values 0 [])
      ≡ ok (with_values (passes (map f vs)) (failures (map f vs)))
pure_loop add with_values counts appends f vs =
    loop_from_empty add with_values counts appends (λ v. ok (f v)) vs
    ∙ ap (λ r. r >>= λ os. ok (with_values (passes os) (failures os))) (verdicts_pure f vs)

module _ (states : List StateVector) (illegals : List IllegalVector) (bonds : List ViewBondVector)
    (state_failure : StateVector → Option String) (illegal_failure : IllegalVector → Option String)
    (bond_failure : ViewBondVector → Result (Option String)) where
  -- The report of a run counts the vectors without a failure and lists the failures of the others.
  pub harness_lem : harness states illegals bonds state_failure illegal_failure bond_failure ≡ (
      verdicts bond_failure bonds >>= λ os.
      ok (report_of (map state_failure states) (map illegal_failure illegals) os))
  unfolding harness
  harness_lem =
      rw
        (
          pure_loop add_state (λ n fs. record empty_report { state_passed = n; state_failed = fs })
              (λ n fs. refl) (λ n fs text. refl) state_failure states,
          pure_loop add_illegal
              (λ n fs. record after_states { illegal_passed = n; illegal_failed = fs })
              (λ n fs. refl) (λ n fs text. refl) illegal_failure illegals,
        )
        (loop_from_empty add_view_bond
          (λ n fs. record after_illegals { view_bond_passed = n; view_bond_failed = fs })
          (λ n fs. refl) (λ n fs text. refl) bond_failure bonds)
    where
      after_states : ConformanceReport
      after_states = record empty_report {
        state_passed = passes (map state_failure states);
        state_failed = failures (map state_failure states);
      }

      after_illegals : ConformanceReport
      after_illegals = record after_states {
        illegal_passed = passes (map illegal_failure illegals);
        illegal_failed = failures (map illegal_failure illegals);
      }
