-- ===== src/Binding/Intents.antt =====
-- The `*_intent` functions of binding.py.
use ars_solana.Prelude.{String, Bool, true, false, List, [], ◌∷◌, ℤ, pos}
use ars_solana.Binding.Params.{
  LockCollateralParams, SlashCollateralParams, UnlockCollateralParams, PayPremiumParams,
  ReleasePrincipalParams,
}

-- An account is (role, pubkey, is_signer, is_writable); the arguments are a dict in order.
pub record InstructionIntent (P : Type 0) : Type 0 where
  pub method : String
  pub program_id : P
  pub accounts : List (String × P × Bool × Bool)
  pub args : List (String × ℤ)

unfoldable pub lock_collateral_intent :
    {P : Type 0} → LockCollateralParams P → P → InstructionIntent P
lock_collateral_intent params program_id = record {
  method = "view_bond";
  program_id = program_id;
  accounts = ("agent", params.agent, false, false) ∷ [];
  args = ("min_bond", params.min_bond_atomic) ∷ ("min_score", params.min_score) ∷ [];
}

unfoldable pub slash_collateral_intent :
    {P : Type 0} → SlashCollateralParams P → P → InstructionIntent P
slash_collateral_intent params program_id = record {
  method = "resolve_claim";
  program_id = program_id;
  accounts =
      ("claim", params.claim, false, true)
      ∷ ("agent", params.agent, false, true)
      ∷ ("bond_mint", params.bond_mint, false, false)
      ∷ ("claimer_bond_ata", params.claimer_bond_ata, false, true)
      ∷ ("signer", params.signer, true, true)
      ∷ [];
  args = ("action", pos 0) ∷ [];
}

unfoldable pub unlock_collateral_intent :
    {P : Type 0} → UnlockCollateralParams P → P → InstructionIntent P
unlock_collateral_intent params program_id = record {
  method = "withdraw_bond";
  program_id = program_id;
  accounts =
      ("agent", params.agent, false, true)
      ∷ ("bond_mint", params.bond_mint, false, false)
      ∷ ("controller", params.controller, true, true)
      ∷ ("controller_bond_ata", params.controller_bond_ata, false, true)
      ∷ [];
  args = ("amount", params.amount_atomic) ∷ [];
}

unfoldable pub pay_premium_intent : {P : Type 0} → PayPremiumParams P → P → InstructionIntent P
pay_premium_intent params program_id = record {
  method = "process_pool_yield";
  program_id = program_id;
  accounts =
      ("payer", params.payer, true, true) ∷ ("underwriter", params.underwriter, false, true) ∷ [];
  args = ("amount", params.amount_atomic) ∷ [];
}

unfoldable pub release_principal_intent :
    {P : Type 0} → ReleasePrincipalParams P → P → InstructionIntent P
release_principal_intent params program_id = record {
  method = "request_credit";
  program_id = program_id;
  accounts =
      ("agent", params.agent, false, true) ∷ ("credit_line", params.credit_line, false, true) ∷ [];
  args = ("amount", params.amount_atomic) ∷ [];
}
