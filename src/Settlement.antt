-- ===== src/Settlement.antt =====
-- python/src/telaro_ars/abc.py and settlement.py: the settlement interface, the table of the
-- instructions that realise it, and the class that implements it over the intents of binding.py.
pub mod Realises
mod Tests
use ars_solana.Prelude.{
  String, Option, none, some, List, [], ◌∷◌, ℤ, pos, str_eq, if◌then◌else◌, Result, ok, raise,
  ◌>>=◌, not_implemented_error,
}
use ars_solana.Solders.{Solders}
use ars_solana.Pda.{Constants}
use ars_solana.Binding.Params.{LockCollateralParams, PayPremiumParams}
use ars_solana.Binding.Intents.{InstructionIntent, lock_collateral_intent, pay_premium_intent}

pub data DepositStatus : Type 0 where
  locked released refunded slashed : DepositStatus

pub record DepositInfo : Type 0 where
  pub job_id : String
  pub amount : ℤ
  pub asset : String
  pub status : DepositStatus
  pub locked_at : Option ℤ
  pub released_at : Option ℤ

-- The other abstract class, which nothing in the repository implements.
pub record CollateralVault (R : Type 0) : Type 0 where
  pub lock : (job_id agent_id : String) → (amount : ℤ) → Result R
  pub unlock : (job_id agent_id : String) → Result R
  pub slash : (job_id agent_id payee : String) → (amount : ℤ) → Result R
  pub get_status : (job_id : String) → Result DepositInfo

-- The abstract class: what an implementation answers to each method.
pub record SettlementLayer (R : Type 0) : Type 0 where
  pub lock_collateral : (job_id agent_id : String) → (amount : ℤ) → Result R
  pub slash_collateral : (job_id agent_id payee : String) → (amount : ℤ) → Result R
  pub unlock_collateral : (job_id agent_id : String) → Result R
  pub pay_premium : (job_id payer underwriter : String) → (amount : ℤ) → Result R
  pub release_principal : (job_id agent_id : String) → (amount : ℤ) → Result R

pub record SettlementBinding : Type 0 where
  pub instruction : String
  pub note : String

abbrev pub telaro_settlement_map : List (String × SettlementBinding)
telaro_settlement_map =
    (
      "lock_collateral",
      record {
        instruction = "view_bond";
        note =
            "standing bond + Agent.reserved_for_claims exposure accounting; leverage must stay <= MAX_LEVERAGE_RATIO (5x)";
      },
    )
    ∷ (
      "slash_collateral",
      record {
        instruction = "resolve_claim / arbiter_resolve";
        note = "a ForUser ruling pays the harmed party out of the agent's bond";
      },
    )
    ∷ (
      "unlock_collateral",
      record {
        instruction = "withdraw_bond";
        note = "released once the job closes, subject to the 30d withdrawal cooldown";
      },
    )
    ∷ (
      "pay_premium",
      record {
        instruction = "process_pool_yield / fund_insurance";
        note =
            "premium routes to the UnderwriterPool (decentralised) or the InsuranceVault backstop";
      },
    )
    ∷ (
      "release_principal",
      record {
        instruction = "request_credit";
        note = "under-collateralised draw from the UnderwriterPool; agent score must be >= 700";
      },
    )
    ∷ ("lock_fee", fee)
    ∷ ("release_fee", fee)
    ∷ ("refund_fee", fee)
    ∷ []
  where
    fee : SettlementBinding
    fee = record {
      instruction = "(none)";
      note = "fee track is out of scope for v0.1 (SPEC.md sections 1 and 10)";
    }

module _ (s : Solders) (c : Constants s.Pubkey) where
  open s use {Pubkey, from_string}

  -- The constructor: the resolver given, or else the agent's id read as base58.
  unfoldable pub resolve_agent : Option (String → Result Pubkey) → String → Result Pubkey
  resolve_agent none agent_id = from_string agent_id
  resolve_agent (some resolver) agent_id = resolver agent_id

  unfoldable pub lock_collateral :
      Option (String → Result Pubkey)
      → (job_id agent_id : String) → (amount : ℤ) → Result (InstructionIntent Pubkey)
  unfolding resolve_agent lock_collateral_intent
  lock_collateral resolver job_id agent_id amount = do
    agent ← resolve_agent resolver agent_id
    ok (
        lock_collateral_intent
          (record { job_id = job_id; agent = agent; min_bond_atomic = amount; min_score = pos 0 })
          c.program_id_devnet)

  unfoldable pub pay_premium :
      (job_id payer underwriter : String) → (amount : ℤ) → Result (InstructionIntent Pubkey)
  unfolding pay_premium_intent
  pay_premium job_id payer underwriter amount = do
    payer_key ← from_string payer
    underwriter_key ← from_string underwriter
    ok (
        pay_premium_intent
          (record {
            job_id = job_id;
            payer = payer_key;
            underwriter = underwriter_key;
            amount_atomic = amount;
          })
          c.program_id_devnet)

  -- `TelaroSettlement`; the coroutines of the class await nothing.
  unfoldable pub telaro_settlement :
      Option (String → Result Pubkey) → SettlementLayer (InstructionIntent Pubkey)
  unfolding lock_collateral pay_premium
  telaro_settlement agent_pda_resolver = record {
    lock_collateral =
        λ job_id agent_id amount. lock_collateral agent_pda_resolver job_id agent_id amount;
    slash_collateral = λ job_id agent_id payee amount. raise (
        not_implemented_error
          "slash_collateral requires a Claim PDA. Construct SlashCollateralParams directly and call slash_collateral_intent(); the resolver does not auto-derive the Claim PDA in v0.1.");
    unlock_collateral = λ job_id agent_id. raise (
        not_implemented_error
          "unlock_collateral requires bond_mint, controller, and controller_bond_ata. Construct UnlockCollateralParams directly and call unlock_collateral_intent().");
    pay_premium = λ job_id payer underwriter amount. pay_premium job_id payer underwriter amount;
    release_principal = λ job_id agent_id amount. raise (
        not_implemented_error
          "release_principal requires the CreditLine PDA. Derive it from ['credit-line', agent] and call release_principal_intent(ReleasePrincipalParams(...)).");
  }
