-- ===== src/Settlement/Realises.antt =====
-- Which settlement actions settlement.py realises, and by which instruction.
use ars_solana.Prelude.{
  ◌≡◌, ◌↔◌, refl, sym, String, Option, none, some, ℤ, pos, Result, ok, >>=-eq-ok, ok-injective,
}
use ars_solana.Solders.{Solders}
use ars_solana.Pda.{Constants}
use ars_solana.Binding.Intents.{InstructionIntent, lock_collateral_intent, pay_premium_intent}
use ars_solana.Binding.Layout.{Call, lock, slash, unlock, pay, release, intent_of}
use ars_solana.Settlement.{
  SettlementLayer, resolve_agent, lock_collateral, pay_premium, telaro_settlement,
}

-- A call of a method of the interface.
pub data Action : Type 0 where
  lock_action : (job_id agent_id : String) → (amount : ℤ) → Action
  slash_action : (job_id agent_id payee : String) → (amount : ℤ) → Action
  unlock_action : (job_id agent_id : String) → Action
  pay_action : (job_id payer underwriter : String) → (amount : ℤ) → Action
  release_action : (job_id agent_id : String) → (amount : ℤ) → Action

abbrev pub perform : {R : Type 0} → SettlementLayer R → Action → Result R
perform l (lock_action job_id agent_id amount) = l.lock_collateral job_id agent_id amount
perform l (slash_action job_id agent_id payee amount) =
    l.slash_collateral job_id agent_id payee amount
perform l (unlock_action job_id agent_id) = l.unlock_collateral job_id agent_id
perform l (pay_action job_id payer underwriter amount) =
    l.pay_premium job_id payer underwriter amount
perform l (release_action job_id agent_id amount) = l.release_principal job_id agent_id amount

module _ (s : Solders) (c : Constants s.Pubkey) (resolver : Option (String → Result s.Pubkey)) where
  open s use {Pubkey, from_string}

  -- The call of binding.py that an action stands for.
  abbrev pub Realises : Action → Call Pubkey → Type 0
  Realises (lock_action job_id agent_id amount) (lock params) =
      (params.job_id ≡ job_id)
      × (resolve_agent s c resolver agent_id ≡ ok params.agent)
      × (params.min_bond_atomic ≡ amount)
      × (params.min_score ≡ pos 0)
  Realises (pay_action job_id payer underwriter amount) (pay params none) =
      (params.job_id ≡ job_id)
      × (from_string payer ≡ ok params.payer)
      × (from_string underwriter ≡ ok params.underwriter)
      × (params.amount_atomic ≡ amount)
  Realises _ _ = ⊥

  abbrev Realised : Action → InstructionIntent Pubkey → Type 0
  Realised action intent =
      (call : Call Pubkey) × Realises action call × (intent ≡ intent_of call c.program_id_devnet)

  abbrev settle : Action → Result (InstructionIntent Pubkey)
  settle action = perform (telaro_settlement s c resolver) action

  settled :
      (action : Action) (intent : InstructionIntent Pubkey)
      → settle action ≡ ok intent
      → Realised action intent
  unfolding telaro_settlement lock_collateral pay_premium
  settled (lock_action job_id agent_id amount) intent h =
      let (agent, e, last) = >>=-eq-ok (resolve_agent s c resolver agent_id) _ h in
      (
        lock (record {
          job_id = job_id;
          agent = agent;
          min_bond_atomic = amount;
          min_score = pos 0;
        }),
        (refl, e, refl, refl),
        sym (ok-injective last),
      )
  settled (pay_action job_id payer underwriter amount) intent h =
      let (key, e, next) = >>=-eq-ok (from_string payer) _ h in
      let (key', e', last) = >>=-eq-ok (from_string underwriter) _ next in
      (
        pay (record { job_id = job_id; payer = key; underwriter = key'; amount_atomic = amount })
            none,
        (refl, e, e', refl),
        sym (ok-injective last),
      )
  settled (slash_action job_id agent_id payee amount) intent h = cc
  settled (unlock_action job_id agent_id) intent h = cc
  settled (release_action job_id agent_id amount) intent h = cc

  settles :
      (action : Action) (intent : InstructionIntent Pubkey) (call : Call Pubkey)
      → Realises action call
      → intent ≡ intent_of call c.program_id_devnet
      → settle action ≡ ok intent
  unfolding telaro_settlement lock_collateral pay_premium lock_collateral_intent pay_premium_intent
  settles (lock_action job_id agent_id amount) intent (lock params) (a, b, m, n) e =
      rw (e, b, ← m, ← n) refl
  settles (lock_action job_id agent_id amount) intent (slash params x) r e = absurd r
  settles (lock_action job_id agent_id amount) intent (unlock params) r e = absurd r
  settles (lock_action job_id agent_id amount) intent (pay params x) r e = absurd r
  settles (lock_action job_id agent_id amount) intent (release params x) r e = absurd r
  settles (pay_action job_id payer underwriter amount) intent (pay params none) (a, b, b', m) e =
      rw (e, b, b', ← m) refl
  settles (pay_action job_id payer underwriter amount) intent (pay params (some x)) r e = absurd r
  settles (pay_action job_id payer underwriter amount) intent (lock params) r e = absurd r
  settles (pay_action job_id payer underwriter amount) intent (slash params x) r e = absurd r
  settles (pay_action job_id payer underwriter amount) intent (unlock params) r e = absurd r
  settles (pay_action job_id payer underwriter amount) intent (release params x) r e = absurd r
  settles (slash_action job_id agent_id payee amount) intent call r e = absurd r
  settles (unlock_action job_id agent_id) intent call r e = absurd r
  settles (release_action job_id agent_id amount) intent call r e = absurd r

  -- A method of `TelaroSettlement` returns an intent exactly if it is `lock_collateral` with an
  -- agent that resolves, or `pay_premium` with two keys that parse, and the intent is then that of
  -- binding.py, on the devnet program, for those keys and that amount, with no score asked for;
  -- the other three methods return nothing.
  pub settle_iff :
      (action : Action) (intent : InstructionIntent Pubkey)
      → (perform (telaro_settlement s c resolver) action ≡ ok intent) ↔ (
          (call : Call Pubkey) × Realises action call
          × (intent ≡ intent_of call c.program_id_devnet))
  settle_iff action intent = (settled action intent, λ (call, r, e). settles action intent call r e)
