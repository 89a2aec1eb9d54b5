-- ===== src/Conformance.antt =====
-- python/src/telaro_ars/conformance.py: the vectors, the report, and the three loops of the
-- harness, which its self-test and the transports of conformance_cli.py share.
pub mod Vectors
pub mod SelfTest
pub mod Loops
pub mod Report
pub mod Dump
pub mod Decode
mod Tests
use ars_solana.Prelude.{
  ℕ, zero, suc, ◌+◌, ◌≡◌, refl, String, Bool, true, false, not, ◌||◌, Option, none, some, List, [],
  ◌∷◌, ◌++◌, map, length, ℤ, Result, ok, raise, ◌>>=◌, ◌<+>◌, str_ℕ, join, if◌then◌else◌,
}
use ars_solana.Events.{ArsEvent}

pub record StateVector : Type 0 where
  pub name : String
  pub log : List ArsEvent
  pub expected_state : String
  pub expected_released_atomic : ℤ

pub record IllegalVector : Type 0 where
  pub name : String
  pub log : List ArsEvent

pub record ViewBondVector : Type 0 where
  pub name : String
  pub min_bond_atomic : ℤ
  pub min_score : ℤ
  pub expected_data_hex : String

pub record ConformanceReport : Type 0 where
  pub state_passed : ℕ
  pub state_failed : List String
  pub illegal_passed : ℕ
  pub illegal_failed : List String
  pub view_bond_passed : ℕ
  pub view_bond_failed : List String

-- `bool(l)` of a list.
abbrev pub is_filled : List String → Bool
is_filled [] = false
is_filled (x ∷ xs) = true

-- The property `ok`.
unfoldable pub report_ok : ConformanceReport → Bool
report_ok r =
    not (is_filled r.state_failed || is_filled r.illegal_failed || is_filled r.view_bond_failed)

abbrev ratio : ℕ → List String → String
ratio passed failed = str_ℕ passed <+> "/" <+> str_ℕ (passed + length failed)

unfoldable pub summary : ConformanceReport → String
unfolding str_ℕ
summary r = join "\n" (
    ("State vectors:       " <+> ratio r.state_passed r.state_failed)
    ∷ ("Illegal vectors:     " <+> ratio r.illegal_passed r.illegal_failed)
    ∷ ("view_bond vectors:   " <+> ratio r.view_bond_passed r.view_bond_failed)
    ∷ (map (λ f. "  STATE FAIL: " <+> f) r.state_failed
        ++ map (λ f. "  ILLEGAL FAIL: " <+> f) r.illegal_failed
        ++ map (λ f. "  VIEW_BOND FAIL: " <+> f) r.view_bond_failed))

abbrev pub empty_report : ConformanceReport
empty_report = record {
  state_passed = 0;
  state_failed = [];
  illegal_passed = 0;
  illegal_failed = [];
  view_bond_passed = 0;
  view_bond_failed = [];
}

-- What a vector adds to the report: `+= 1` where there is no failure, `.append` where there is one.
abbrev pub add_state : ConformanceReport → Option String → ConformanceReport
add_state r none = record r { state_passed = suc r.state_passed }
add_state r (some text) = record r { state_failed = r.state_failed ++ text ∷ [] }

abbrev pub add_illegal : ConformanceReport → Option String → ConformanceReport
add_illegal r none = record r { illegal_passed = suc r.illegal_passed }
add_illegal r (some text) = record r { illegal_failed = r.illegal_failed ++ text ∷ [] }

abbrev pub add_view_bond : ConformanceReport → Option String → ConformanceReport
add_view_bond r none = record r { view_bond_passed = suc r.view_bond_passed }
add_view_bond r (some text) = record r { view_bond_failed = r.view_bond_failed ++ text ∷ [] }

-- A loop over vectors, by the failure (if any) that its body finds; the body may raise.
unfoldable pub run_vectors :
    {V : Type 0}
    → (ConformanceReport → Option String → ConformanceReport)
    → (V → Result (Option String))
    → List V
    → ConformanceReport
    → Result ConformanceReport
run_vectors add body [] r = ok r
run_vectors add body (v ∷ vs) r = body v >>= λ failure. run_vectors add body vs (add r failure)

-- The three loops, in their order; the first two catch every exception.
unfoldable pub harness :
    (states : List StateVector)
    → (illegals : List IllegalVector) → (bonds : List ViewBondVector)
    → (StateVector → Option String)
    → (IllegalVector → Option String)
    → (ViewBondVector → Result (Option String))
    → Result ConformanceReport
unfolding run_vectors
harness states illegals bonds state_failure illegal_failure bond_failure = do
  r ← run_vectors add_state (λ v. ok (state_failure v)) states empty_report
  next ← run_vectors add_illegal (λ v. ok (illegal_failure v)) illegals r
  run_vectors add_view_bond bond_failure bonds next
