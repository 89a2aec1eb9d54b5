-- ===== src/Cli/Python.antt =====
-- `_run_python_transport` of conformance_cli.py. The module under test is a parameter: what its
-- exports do when called, and which of them it has.
use ars_solana.Prelude.{
  ℕ, String, Bool, not, ◌&&◌, Option, none, some, List, [], ◌∷◌, ℤ, pos, ◌==ℤ◌, str_eq, str_int,
  ◌<+>◌, if◌then◌else◌, Exception, class_name, message, runtime_error, Result, ok, raise, ◌>>=◌,
  ◌>>◌, hex_text,
}
use ars_solana.Solders.{Solders}
use ars_solana.Events.{ArsEvent}
use ars_solana.Binding.Params.{LockCollateralParams}
use ars_solana.Conformance.{StateVector, IllegalVector, ViewBondVector, ConformanceReport, harness}
use ars_solana.Conformance.Vectors.{state_vectors, illegal_vectors, loaded_vectors}
use ars_solana.Conformance.SelfTest.{compare_hex}

-- The exports of a module: `hasattr`, `replay`, what `job.state` and `job.released_atomic` (if there
-- is one) are, whether an exception is the module's transition error, and the bytes that
-- `build_view_bond_ix` gives for the parameters.
pub record TargetModule (P : Type 0) : Type 1 where
  pub has_export : String → Bool
  pub Job : Type 0
  pub replay : List ArsEvent → Result Job
  pub state_of : Job → Result String
  pub released_of : Job → Option ℤ
  pub is_target_error : Exception → Bool
  pub build_view_bond : LockCollateralParams P → Result (List ℕ)

abbrev pub needed : List String
needed =
    "apply_event" ∷ "replay" ∷ "ARSTransitionError" ∷ "build_view_bond_ix" ∷ "LockCollateralParams"
    ∷ []

abbrev pub missing_of : (String → Bool) → List String → List String
missing_of has [] = []
missing_of has (n ∷ ns) = let rest = missing_of has ns in if not (has n) then n ∷ rest else rest

-- `getattr(job, "released_atomic", 0)`, and with `None` for the default in the text.
abbrev pub or_zero : Option ℤ → ℤ
or_zero none = pos 0
or_zero (some n) = n

abbrev or_none : Option ℤ → String
or_none none = "None"
or_none (some n) = str_int n

module _ {P : Type 0} (m : TargetModule P) (agent : P) where
  open m use {Job, replay, state_of, released_of, is_target_error, build_view_bond}

  abbrev compare_job : StateVector → Job → String → Option String
  compare_job v job state =
      if str_eq state v.expected_state && (or_zero (released_of job) ==ℤ v.expected_released_atomic)
      then none
      else some
          (v.name <+> ": got state=" <+> state <+> ", released=" <+> or_none (released_of job))

  unfoldable pub target_state_failure : StateVector → Option String
  unfolding str_int
  target_state_failure v =
      elim (replay v.log >>= λ job. state_of job >>= λ state. ok (compare_job v job state)) [
        | ok failure ↦ failure
        | raise e ↦ some (v.name <+> ": raised " <+> class_name e <+> ": " <+> message e)
      ]

  unfoldable pub target_illegal_failure : IllegalVector → Option String
  target_illegal_failure v = elim (replay v.log) [
    | ok job ↦ some (v.name <+> ": should have raised")
    | raise e ↦
        if is_target_error e
        then none
        else some (v.name <+> ": raised wrong type " <+> class_name e)
  ]

  abbrev pub params_of : ViewBondVector → LockCollateralParams P
  params_of v = record {
    job_id = "conformance";
    agent = agent;
    min_bond_atomic = v.min_bond_atomic;
    min_score = v.min_score;
  }

  unfoldable pub target_bond_failure : ViewBondVector → Result (Option String)
  unfolding hex_text
  target_bond_failure v =
      build_view_bond (params_of v) >>= λ bytes. ok (compare_hex v (hex_text bytes))

  -- The three loops.
  unfoldable pub run_target : Result ConformanceReport
  unfolding harness target_state_failure target_illegal_failure target_bond_failure
  run_target =
      harness state_vectors illegal_vectors loaded_vectors target_state_failure
        target_illegal_failure target_bond_failure

module _ (s : Solders) (repr : String → String) (repr_list : List String → String)
    (import_module : String → Result (TargetModule s.Pubkey)) where
  open s use {Pubkey, from_string}

  abbrev require_exports : String → List String → Result (Unit {0})
  require_exports module_path [] = ok tt
  require_exports module_path missing = raise (
      runtime_error (
        "target module "
        <+> repr module_path
        <+> " is missing required exports: "
        <+> repr_list missing))

  -- `repr` is Python's, of a text and of a list of them.
  unfoldable pub run_python_transport : String → Result ConformanceReport
  unfolding run_target
  run_python_transport module_path = do
    m ← import_module module_path
    require_exports module_path (missing_of m.has_export needed)
    agent ← from_string "4Nd1mYJgC7DsB3v9pkM9CRZxoUTfXn1kbm1zFM5hZRgM"
    run_target m agent
