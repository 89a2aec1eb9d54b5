-- ===== src/Conformance/Report.antt =====
-- What the report of conformance.py says of a run of its harness.
use ars_solana.Prelude.{
  suc, ◌+◌, ◌≡◌, ◌↔◌, refl, sym, ap, ◌∙◌, String, true, Option, none, some, List, [], ◌∷◌, map,
  length, All, Result, ok, ◌>>=◌, >>=-eq-ok, ok-injective,
}
use ars_solana.Conformance.{
  StateVector, IllegalVector, ViewBondVector, ConformanceReport, report_ok, harness,
}
use ars_solana.Conformance.Loops.{
  failures, report_of, verdicts, verdicts_pure, passes_total, harness_lem,
}

length-verdicts :
    {V : Type 0} (body : V → Result (Option String)) (vs : List V) (os : List (Option String))
    → verdicts body vs ≡ ok os
    → length os ≡ length vs
length-verdicts body [] os h = rw (← ok-injective h) refl
length-verdicts body (v ∷ vs) os h =
    let (o, e, next) = >>=-eq-ok (body v) _ h in
    let (more, e', last) = >>=-eq-ok (verdicts body vs) _ next in
    rw (← ok-injective last) (ap suc (length-verdicts body vs more e'))

length-map : {V : Type 0} (f : V → Option String) (vs : List V) → length (map f vs) ≡ length vs
length-map f [] = refl
length-map f (v ∷ vs) = ap suc (length-map f vs)

-- No failure is found exactly where no body finds one.
All-pass :
    {V : Type 0} (body : V → Result (Option String)) (vs : List V) (os : List (Option String))
    → verdicts body vs ≡ ok os
    → (failures os ≡ []) ↔ All (λ v. body v ≡ ok none) vs
All-pass body [] os h = rw (← ok-injective h) (λ e. tt, λ t. refl)
All-pass body (v ∷ vs) os h =
    let (o, e, next) = >>=-eq-ok (body v) _ h in
    let (more, e', last) = >>=-eq-ok (verdicts body vs) _ next in
    rw (← ok-injective last) (split o e more (All-pass body vs more e'))
  where
    split :
        (o : Option String)
        → body v ≡ ok o
        → (more : List (Option String)) → (failures more ≡ []) ↔ All (λ v. body v ≡ ok none) vs
        → (failures (o ∷ more) ≡ []) ↔ All (λ v. body v ≡ ok none) (v ∷ vs)
    split none e more ih = (λ h. (e, ih.0 h), λ (p, ps). ih.1 ps)
    split (some text) e more ih = (λ h. cc, λ (p, ps). cc)

All-pass_pure :
    {V : Type 0} (f : V → Option String) (vs : List V)
    → (failures (map f vs) ≡ [])
      ↔ All (λ v. ◌≡◌ {A = Result (Option String)} (ok (f v)) (ok none)) vs
All-pass_pure f vs = All-pass (λ v. ok (f v)) vs (map f vs) (verdicts_pure f vs)

pub report_ok_iff :
    (r : ConformanceReport)
    → (report_ok r ≡ true)
      ↔ ((r.state_failed ≡ []) × (r.illegal_failed ≡ []) × (r.view_bond_failed ≡ []))
unfolding report_ok
report_ok_iff r = lists r.state_failed r.illegal_failed r.view_bond_failed
  where
    lists :
        (a b c : List String)
        → (report_ok (record r { state_failed = a; illegal_failed = b; view_bond_failed = c })
            ≡ true)
          ↔ ((a ≡ []) × (b ≡ []) × (c ≡ []))
    lists [] [] [] = (λ h. (refl, refl, refl), λ h. refl)
    lists (x ∷ a) b c = (λ h. cc, λ (p, q, s). cc)
    lists [] (x ∷ b) c = (λ h. cc, λ (p, q, s). cc)
    lists [] [] (x ∷ c) = (λ h. cc, λ (p, q, s). cc)

module _ (states : List StateVector) (illegals : List IllegalVector) (bonds : List ViewBondVector)
    (state_failure : StateVector → Option String) (illegal_failure : IllegalVector → Option String)
    (bond_failure : ViewBondVector → Result (Option String)) where
  -- No vector of the three lists fails.
  abbrev pub AllPass : Type 0
  AllPass =
      All (λ v. ◌≡◌ {A = Result (Option String)} (ok (state_failure v)) (ok none)) states
      × All (λ v. ◌≡◌ {A = Result (Option String)} (ok (illegal_failure v)) (ok none)) illegals
      × All (λ v. bond_failure v ≡ ok none) bonds

  -- A report of the harness accounts for every vector, as passed or as failed, and is ok exactly if
  -- no vector fails.
  pub harness_iff :
      (r : ConformanceReport)
      → harness states illegals bonds state_failure illegal_failure bond_failure ≡ ok r
      → (r.state_passed + length r.state_failed ≡ length states)
        × (r.illegal_passed + length r.illegal_failed ≡ length illegals)
        × (r.view_bond_passed + length r.view_bond_failed ≡ length bonds)
        × ((report_ok r ≡ true) ↔ AllPass)
  harness_iff r h =
      let lem = harness_lem states illegals bonds state_failure illegal_failure bond_failure in
      let (os, e, last) = >>=-eq-ok (verdicts bond_failure bonds) _ (sym lem ∙ h) in
      rw (← ok-injective last) (
        passes_total (map state_failure states) ∙ length-map state_failure states,
        passes_total (map illegal_failure illegals) ∙ length-map illegal_failure illegals,
        passes_total os ∙ length-verdicts bond_failure bonds os e,
        clean os e,
      )
    where
      clean :
          (os : List (Option String))
          → verdicts bond_failure bonds ≡ ok os
          → (report_ok (report_of (map state_failure states) (map illegal_failure illegals) os)
              ≡ true)
            ↔ AllPass
      clean os e =
          let ok_iff =
            report_ok_iff
              (report_of (map state_failure states) (map illegal_failure illegals) os) in
          let a = All-pass_pure state_failure states in
          let b = All-pass_pure illegal_failure illegals in
          let c = All-pass bond_failure bonds os e in
          (
            λ h. let (x, y, z) = ok_iff.0 h in (a.0 x, b.0 y, c.0 z),
            λ (x, y, z). ok_iff.1 (a.1 x, b.1 y, c.1 z),
          )

  verdicts_return :
      (vs : List ViewBondVector)
      → All (λ v. (o : Option String) × (bond_failure v ≡ ok o)) vs
      → (os : List (Option String)) × (verdicts bond_failure vs ≡ ok os)
  verdicts_return [] h = ([], refl)
  verdicts_return (v ∷ vs) ((o, e), more) =
      let (os, e') = verdicts_return vs more in (o ∷ os, rw (e, e') refl)

  -- The harness gives a report if the body of its third loop returns for every vector.
  pub harness_returns :
      All (λ v. (o : Option String) × (bond_failure v ≡ ok o)) bonds
      → (r : ConformanceReport) × (harness states illegals bonds state_failure illegal_failure
            bond_failure
          ≡ ok r)
  harness_returns h =
      let (os, e) = verdicts_return bonds h in
      (
        report_of (map state_failure states) (map illegal_failure illegals) os,
        harness_lem states illegals bonds state_failure illegal_failure bond_failure
            ∙ ap
                (λ x. x >>= λ os.
                  ok (report_of (map state_failure states) (map illegal_failure illegals) os))
                e,
      )
