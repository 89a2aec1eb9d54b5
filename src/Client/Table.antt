-- ===== src/Client/Table.antt =====
-- src/settlement.ts: the table of the instructions that realise the settlement methods. Its
-- interface is the set of methods that the client has.
use ars_solana.Prelude.{◌≡◌, refl, String, List, [], ◌∷◌, map}
use ars_solana.Settlement.{telaro_settlement_map}

pub record TelaroBinding : Type 0 where
  pub instruction : String
  pub note : String

abbrev fee_binding : TelaroBinding
fee_binding = record {
  instruction = "(none)";
  note = "fee track is out of scope for v1 — see dual-track redesign 4.2";
}

abbrev settlement_bindings : List (String × TelaroBinding)
settlement_bindings =
    (
      "lockCollateral",
      record {
        instruction = "view_bond";
        note =
            "standing bond + Agent.reserved_for_claims exposure accounting; leverage must stay <= MAX_LEVERAGE_RATIO (5x)";
      },
    )
    ∷ (
      "slashCollateral",
      record {
        instruction = "resolve_claim / arbiter_resolve";
        note = "a ForUser ruling pays the harmed party out of the agent's bond";
      },
    )
    ∷ (
      "unlockCollateral",
      record {
        instruction = "withdraw_bond";
        note = "released once the job closes, subject to the 30d withdrawal cooldown";
      },
    )
    ∷ (
      "payPremium",
      record {
        instruction = "process_pool_yield / fund_insurance";
        note =
            "premium routes to the UnderwriterPool (decentralised) or the InsuranceVault backstop";
      },
    )
    ∷ (
      "releasePrincipal",
      record {
        instruction = "request_credit";
        note = "under-collateralised draw from the UnderwriterPool; agent score must be >= 700";
      },
    )
    ∷ ("lockFee", fee_binding)
    ∷ ("releaseFee", fee_binding)
    ∷ ("refundFee", fee_binding)
    ∷ []

-- The Python table has the same instructions, in the same order.
same_instructions :
    map (λ (name, binding). binding.instruction) settlement_bindings
    ≡ map (λ (name, binding). binding.instruction) telaro_settlement_map
same_instructions = refl
