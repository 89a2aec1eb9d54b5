-- ===== src/Package.antt =====
-- python/src/telaro_ars/__init__.py: what `import telaro_ars` offers, and the package as the module
-- under test of its own command line.
mod Conforms
mod Tests
use ars_solana.Prelude.{
  ℕ, String, Bool, true, false, ◌||◌, some, List, [], ◌∷◌, str_eq, Exception, Result, ok, ◌>>=◌,
}
use ars_solana.Solders.{Solders}
use ars_solana.Pda.{Constants}
use ars_solana.State.{Job, state_name, replay}
use ars_solana.Binding.Params.{LockCollateralParams}
use ars_solana.Binding.Builders.{build_view_bond_ix}
use ars_solana.Cli.Python.{TargetModule}

-- The names that the `import` statements bind.
abbrev imported : List String
imported =
    "SettlementLayer" ∷ "CollateralVault" ∷ "DepositInfo" ∷ "DepositStatus" ∷ "ArsEvent"
    ∷ "JobOpened" ∷ "UnderwritingStarted" ∷ "UnderwritingDecided" ∷ "PrincipalReleased"
    ∷ "EvidenceSubmitted" ∷ "Disputed" ∷ "Closed" ∷ "Job" ∷ "PrincipalState" ∷ "ARSTransitionError"
    ∷ "apply_event" ∷ "replay" ∷ "is_terminal" ∷ "TelaroSettlement" ∷ "TELARO_SETTLEMENT_MAP"
    ∷ "SettlementBinding" ∷ "LockCollateralParams" ∷ "SlashCollateralParams"
    ∷ "UnlockCollateralParams" ∷ "PayPremiumParams" ∷ "ReleasePrincipalParams" ∷ "InstructionIntent"
    ∷ "lock_collateral_intent" ∷ "slash_collateral_intent" ∷ "unlock_collateral_intent"
    ∷ "pay_premium_intent" ∷ "release_principal_intent" ∷ "build_view_bond_ix"
    ∷ "build_resolve_claim_ix" ∷ "build_withdraw_bond_ix" ∷ "build_process_pool_yield_ix"
    ∷ "build_request_credit_ix" ∷ "PROGRAM_ID_DEVNET" ∷ "MIN_BOND_USDC_ATOMIC"
    ∷ "MIN_SCORE_FOR_CREDIT" ∷ "MAX_LEVERAGE_RATIO" ∷ []

abbrev version : String
version = "0.4.0"

-- `__all__`
abbrev exported : List String
exported =
    "__version__" ∷ "SettlementLayer" ∷ "CollateralVault" ∷ "DepositInfo" ∷ "DepositStatus"
    ∷ "ArsEvent" ∷ "JobOpened" ∷ "UnderwritingStarted" ∷ "UnderwritingDecided" ∷ "PrincipalReleased"
    ∷ "EvidenceSubmitted" ∷ "Disputed" ∷ "Closed" ∷ "Job" ∷ "PrincipalState" ∷ "ARSTransitionError"
    ∷ "apply_event" ∷ "replay" ∷ "is_terminal" ∷ "TelaroSettlement" ∷ "TELARO_SETTLEMENT_MAP"
    ∷ "SettlementBinding" ∷ "LockCollateralParams" ∷ "SlashCollateralParams"
    ∷ "UnlockCollateralParams" ∷ "PayPremiumParams" ∷ "ReleasePrincipalParams" ∷ "InstructionIntent"
    ∷ "lock_collateral_intent" ∷ "slash_collateral_intent" ∷ "unlock_collateral_intent"
    ∷ "pay_premium_intent" ∷ "release_principal_intent" ∷ "build_view_bond_ix"
    ∷ "build_resolve_claim_ix" ∷ "build_withdraw_bond_ix" ∷ "build_process_pool_yield_ix"
    ∷ "build_request_credit_ix" ∷ "PROGRAM_ID_DEVNET" ∷ "MIN_BOND_USDC_ATOMIC"
    ∷ "MIN_SCORE_FOR_CREDIT" ∷ "MAX_LEVERAGE_RATIO" ∷ []

abbrev is_among : String → List String → Bool
is_among name [] = false
is_among name (n ∷ names) = str_eq name n || is_among name names

-- `hasattr(telaro_ars, name)`, for the names that the file itself binds.
unfoldable pub has_attribute : String → Bool
has_attribute name = is_among name ("__version__" ∷ "__all__" ∷ imported)

-- `isinstance(e, telaro_ars.ARSTransitionError)`
abbrev pub is_transition_error : Exception → Bool
is_transition_error (Exception.ars_transition_error m) = true
is_transition_error e = false

-- The package, as the conformance command calls it.
module _ (s : Solders) (c : Constants s.Pubkey) where
  abbrev view_bond_bytes : LockCollateralParams s.Pubkey → Result (List ℕ)
  view_bond_bytes params =
      build_view_bond_ix s c params c.program_id_devnet >>= λ ix. ok ix.data_bytes

  abbrev pub telaro_ars : TargetModule s.Pubkey
  telaro_ars = record {
    has_export = has_attribute;
    Job = Job;
    replay = replay;
    state_of = λ job. ok (state_name job.state);
    released_of = λ job. some job.released_atomic;
    is_target_error = is_transition_error;
    build_view_bond = view_bond_bytes;
  }
