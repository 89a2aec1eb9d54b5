-- ===== src/Client.antt =====
-- src/client.ts: the settlement client. What it asks of the network is a list of calls, in their
-- order; the network's answer to a call may depend on the calls before it. A method that awaits a
-- call goes on with its answer, or is rejected with what the call threw.
pub mod Instructions
pub mod Settles
mod Table
mod Tests
use ars_solana.Prelude.{
  String, Option, none, some, List, [], ◌∷◌, ◌++◌, Result, ok, raise, foreign_error,
}
use ars_solana.Client.Instructions.{
  Sdk, LockCollateralParams, SlashCollateralParams, UnlockCollateralParams, PayPremiumParams,
  ReleasePrincipalParams, lock_collateral_ix, slash_collateral_ix, unlock_collateral_ix,
  pay_premium_ix, release_principal_ix,
}

pub record SettleResult : Type 0 where
  pub job_id : String
  pub signature : String

module _ (sdk : Sdk) where
  open sdk use {PublicKey, Keypair, TransactionInstruction, public_key}

  pub record Transaction : Type 0 where
    pub instructions : List TransactionInstruction
    pub fee_payer : PublicKey
    pub recent_blockhash : String

  pub data Call : Type 0 where
    get_latest_blockhash : Call
    send_and_confirm_transaction : Transaction → List Keypair → Call

-- A computation that calls the network: its end, and all calls so far.
abbrev pub Session : Sdk → Type 0 → Type 0
Session sdk A = List (Call sdk) → Result A × List (Call sdk)

-- What follows a call that ended: it goes on with the answer, or not at all.
abbrev pub after :
    {sdk : Sdk} {A B : Type 0}
    → Result A × List (Call sdk)
    → (A → Session sdk B)
    → Result B × List (Call sdk)
after (raise e, calls) next = (raise e, calls)
after (ok a, calls) next = next a calls

infixl 5 ◌>>=◌
abbrev pub ◌>>=◌ : {sdk : Sdk} {A B : Type 0} → Session sdk A → (A → Session sdk B) → Session sdk B
◌>>=◌ first next calls = after (first calls) next

-- The interface `TxSender`.
abbrev pub TxSender : Sdk → Type 0
TxSender sdk = List sdk.TransactionInstruction → List sdk.Keypair → Session sdk String

-- The answer of the network to a call, after the calls before it.
abbrev pub Network : Sdk → Type 0
Network sdk = List (Call sdk) → Call sdk → Result String

module _ (sdk : Sdk) where
  open sdk use {PublicKey, Keypair, TransactionInstruction, public_key}

  abbrev ask : Network sdk → Call sdk → Session sdk String
  ask network call calls = (network calls call, calls ++ call ∷ [])

  unfoldable pub connection_sender : Network sdk → TxSender sdk
  connection_sender network instructions [] = λ calls. (
    raise
        (foreign_error "Error" "connectionSender: at least one signer (the fee payer) is required"),
    calls,
  )
  connection_sender network instructions (first ∷ rest) = do
    blockhash ← ask network get_latest_blockhash
    ask network (
        send_and_confirm_transaction
          (record {
            instructions = instructions;
            fee_payer = public_key first;
            recent_blockhash = blockhash;
          })
          (first ∷ rest))

  pub record TelaroSettlement : Type 0 where
    pub sender : TxSender sdk
    pub program_id : PublicKey

  -- `programId ?? PROGRAM_ID`
  abbrev pub or_default : Option PublicKey → PublicKey
  or_default none = sdk.program_id
  or_default (some program_id) = program_id

  -- The constructor.
  abbrev pub telaro_settlement : TxSender sdk → Option PublicKey → TelaroSettlement
  telaro_settlement sender program_id = record {
    sender = sender;
    program_id = or_default program_id;
  }

module _ {sdk : Sdk} (self : TelaroSettlement sdk) where
  open sdk use {PublicKey, Keypair, TransactionInstruction}

  unfoldable pub run : String → TransactionInstruction → List Keypair → Session sdk SettleResult
  run job_id instruction signers = do
    signature ← self.sender (instruction ∷ []) signers
    λ calls. (ok (record { job_id = job_id; signature = signature }), calls)

  -- A method's argument is built before the method calls `run`.
  abbrev built :
      Result TransactionInstruction
      → (TransactionInstruction → Session sdk SettleResult)
      → Session sdk SettleResult
  built (raise e) next calls = (raise e, calls)
  built (ok instruction) next calls = next instruction calls

  unfoldable pub lock_collateral :
      LockCollateralParams PublicKey → List Keypair → Session sdk SettleResult
  unfolding run
  lock_collateral params signers =
      built (lock_collateral_ix sdk params self.program_id)
        λ instruction. run params.job_id instruction signers

  unfoldable pub slash_collateral :
      SlashCollateralParams PublicKey → List Keypair → Session sdk SettleResult
  unfolding run
  slash_collateral params signers =
      built (slash_collateral_ix sdk params self.program_id)
        λ instruction. run params.job_id instruction signers

  unfoldable pub unlock_collateral :
      UnlockCollateralParams PublicKey → List Keypair → Session sdk SettleResult
  unfolding run
  unlock_collateral params signers =
      built (unlock_collateral_ix sdk params self.program_id)
        λ instruction. run params.job_id instruction signers

  unfoldable pub pay_premium : PayPremiumParams PublicKey → List Keypair → Session sdk SettleResult
  unfolding run
  pay_premium params signers =
      built (pay_premium_ix sdk params self.program_id)
        λ instruction. run params.job_id instruction signers

  unfoldable pub release_principal :
      ReleasePrincipalParams PublicKey → List Keypair → Session sdk SettleResult
  unfolding run
  release_principal params signers =
      built (release_principal_ix sdk params self.program_id)
        λ instruction. run params.job_id instruction signers
