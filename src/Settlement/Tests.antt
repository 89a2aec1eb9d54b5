-- ===== src/Settlement/Tests.antt =====
-- Settlement actions of settlement.py at concrete keys, and its theorems at them.
use ars_solana.Prelude.{ℕ, ◌≡◌, ◌↔◌, refl, some, String, pos, Result, ok}
use ars_solana.Solders.Model.{solders}
use ars_solana.Pda.{Constants}
use ars_solana.Binding.Intents.{InstructionIntent, lock_collateral_intent}
use ars_solana.Binding.Layout.{Call, lock, intent_of}
use ars_solana.Settlement.{telaro_settlement}
use ars_solana.Settlement.Realises.{lock_action, perform, Realises, settle_iff}

abbrev keys : Constants ℕ
keys = record { program_id_devnet = 11; token_program_id = 12; system_program_id = 13 }

-- A resolver that knows one agent.
abbrev resolver : String → Result ℕ
resolver agent_id = ok 5

abbrev locking : Call ℕ
locking = lock (record { job_id = "j"; agent = 5; min_bond_atomic = pos 9; min_score = pos 0 })

abbrev locked_intent : InstructionIntent ℕ
unfolding lock_collateral_intent
locked_intent = intent_of locking 11

lock_runs :
    perform (telaro_settlement solders keys (some resolver)) (lock_action "j" "a" (pos 9))
    ≡ ok locked_intent
unfolding telaro_settlement
lock_runs = refl

settle_iff_example :
    (perform (telaro_settlement solders keys (some resolver)) (lock_action "j" "a" (pos 9))
      ≡ ok locked_intent)
    ↔ ((call : Call ℕ) × Realises solders keys (some resolver) (lock_action "j" "a" (pos 9)) call
        × (locked_intent ≡ intent_of call 11))
settle_iff_example =
    settle_iff solders keys (some resolver) (lock_action "j" "a" (pos 9)) locked_intent
