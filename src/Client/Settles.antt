-- ===== src/Client/Settles.antt =====
-- The settlement client of src/client.ts with a sender that is backed by a connection.
use ars_solana.Prelude.{
  ◌≡◌, refl, ap, ◌∙◌, ◌⊎◌, inl, inr, String, Option, List, [], ◌∷◌, ◌++◌, Result, ok, raise,
  Exception, foreign_error, Result-cases,
}
use ars_solana.Client.Instructions.{
  Sdk, LockCollateralParams, SlashCollateralParams, UnlockCollateralParams, PayPremiumParams,
  ReleasePrincipalParams, lock_collateral_ix, slash_collateral_ix, unlock_collateral_ix,
  pay_premium_ix, release_principal_ix,
}
use ars_solana.Client.{
  SettleResult, Transaction, Call, get_latest_blockhash, send_and_confirm_transaction, Session,
  after, Network, connection_sender, TelaroSettlement, telaro_settlement, or_default, run, built,
  lock_collateral, slash_collateral, unlock_collateral, pay_premium, release_principal,
}

-- The five actions, with their parameters.
pub data Action (P : Type 0) : Type 0 where
  lock : LockCollateralParams P → Action P
  slash : SlashCollateralParams P → Action P
  unlock : UnlockCollateralParams P → Action P
  premium : PayPremiumParams P → Action P
  principal : ReleasePrincipalParams P → Action P

abbrev pub job_id_of : {P : Type 0} → Action P → String
job_id_of (lock params) = params.job_id
job_id_of (slash params) = params.job_id
job_id_of (unlock params) = params.job_id
job_id_of (premium params) = params.job_id
job_id_of (principal params) = params.job_id

module _ (sdk : Sdk) where
  open sdk use {PublicKey, Keypair, TransactionInstruction, public_key}

  -- The instruction of src/binding.ts for an action.
  abbrev pub instruction_of : Action PublicKey → PublicKey → Result TransactionInstruction
  instruction_of (lock params) = lock_collateral_ix sdk params
  instruction_of (slash params) = slash_collateral_ix sdk params
  instruction_of (unlock params) = unlock_collateral_ix sdk params
  instruction_of (premium params) = pay_premium_ix sdk params
  instruction_of (principal params) = release_principal_ix sdk params

  -- The client's method for an action.
  abbrev pub settle :
      TelaroSettlement sdk → Action PublicKey → List Keypair → Session sdk SettleResult
  settle self (lock params) = lock_collateral self params
  settle self (slash params) = slash_collateral self params
  settle self (unlock params) = unlock_collateral self params
  settle self (premium params) = pay_premium self params
  settle self (principal params) = release_principal self params

  module _ (self : TelaroSettlement sdk) where
    settle-eq :
        (action : Action PublicKey) (signers : List Keypair)
        → settle self action signers
          ≡ built self
              (instruction_of action self.program_id)
              (λ instruction. run self (job_id_of action) instruction signers)
    unfolding lock_collateral slash_collateral unlock_collateral pay_premium release_principal
    settle-eq (lock params) signers = refl
    settle-eq (slash params) signers = refl
    settle-eq (unlock params) signers = refl
    settle-eq (premium params) signers = refl
    settle-eq (principal params) signers = refl

  module _ (network : Network sdk) (program_id : Option PublicKey) (action : Action PublicKey)
      (signers : List Keypair) (calls : List (Call sdk)) where
    -- The client with the given program, or the default one, run after some calls.
    abbrev pub outcome : Result SettleResult × List (Call sdk)
    outcome =
        settle (telaro_settlement sdk (connection_sender sdk network) program_id) action signers
          calls

    -- The builder throws, and nothing is sent.
    abbrev pub IsUnbuilt : Type 0
    IsUnbuilt =
        (e : Exception) × (instruction_of action (or_default sdk program_id) ≡ raise e)
        × (outcome ≡ (raise e, calls))

    -- There is nobody to pay the fee, and nothing is sent.
    abbrev pub IsUnsigned : Type 0
    IsUnsigned =
        (signers ≡ []) × (m : String) × (outcome ≡ (raise (foreign_error "Error" m), calls))

    -- The network gives no blockhash, and nothing is sent.
    abbrev pub IsOffline : Type 0
    IsOffline =
        (e : Exception) × (network calls get_latest_blockhash ≡ raise e)
        × (outcome ≡ (raise e, calls ++ get_latest_blockhash ∷ []))

    -- What a confirmation makes of the call.
    abbrev pub settled : Result String → Result SettleResult
    settled (raise e) = raise e
    settled (ok signature) = ok (record { job_id = job_id_of action; signature = signature })

    -- One transaction is sent, of the action's instruction alone.
    abbrev pub IsSent : Type 0
    IsSent =
        (instruction : TransactionInstruction) × (first : Keypair) × (rest : List Keypair)
        × (blockhash : String) × (instruction_of action (or_default sdk program_id)
            ≡ ok instruction)
        × (signers ≡ first ∷ rest)
        × (network calls get_latest_blockhash ≡ ok blockhash)
        × (let transaction : Transaction sdk = record {
          instructions = instruction ∷ [];
          fee_payer = public_key first;
          recent_blockhash = blockhash;
        } in
            let sending = send_and_confirm_transaction transaction signers in
            let asked = calls ++ get_latest_blockhash ∷ [] in
            outcome ≡ (settled (network asked sending), asked ++ sending ∷ []))

  module _ (network : Network sdk) (program_id : Option PublicKey) where
    -- The client with the given program, or the default one.
    abbrev client : TelaroSettlement sdk
    client = telaro_settlement sdk (connection_sender sdk network) program_id

    unbuilt :
        (action : Action PublicKey) (signers : List Keypair) (calls : List (Call sdk))
        (e : Exception)
        → instruction_of action (or_default sdk program_id) ≡ raise e
        → outcome network program_id action signers calls ≡ (raise e, calls)
    unbuilt action signers calls e p =
        ap (λ f. f calls) (settle-eq client action signers)
        ∙ ap
            (λ r.
              built client r (λ instruction. run client (job_id_of action) instruction signers)
                calls)
            p

    ran :
        (action : Action PublicKey) (signers : List Keypair) (calls : List (Call sdk))
        (instruction : TransactionInstruction)
        → instruction_of action (or_default sdk program_id) ≡ ok instruction
        → outcome network program_id action signers calls
          ≡ run client (job_id_of action) instruction signers calls
    ran action signers calls instruction p =
        ap (λ f. f calls) (settle-eq client action signers)
        ∙ ap (λ r. built client r (λ ix. run client (job_id_of action) ix signers) calls) p

    settled_end :
        (action : Action PublicKey) (signers : List Keypair) (calls : List (Call sdk))
        (r : Result String) (last : List (Call sdk))
        → after
            (r, last)
            (λ signature calls.
              (ok (record { job_id = job_id_of action; signature = signature }), calls))
          ≡ (settled network program_id action signers calls r, last)
    settled_end action signers calls (raise e) last = refl
    settled_end action signers calls (ok signature) last = refl

    signed_by :
        (action : Action PublicKey) (signers : List Keypair) (calls : List (Call sdk))
        (instruction : TransactionInstruction)
        → instruction_of action (or_default sdk program_id) ≡ ok instruction
        → IsUnsigned network program_id action signers calls
          ⊎ IsOffline network program_id action signers calls
          ⊎ IsSent network program_id action signers calls
    unfolding run connection_sender
    signed_by action [] calls instruction p = inl (refl, _, ran action [] calls instruction p)
    signed_by action (first ∷ rest) calls instruction p =
        elim (Result-cases (network calls get_latest_blockhash)) [
          | inr (e, q) ↦
              inr (inl (e, q, ran action (first ∷ rest) calls instruction p ∙ rw (after, q) refl))
          | inl (blockhash, q) ↦ inr (
              inr (
                instruction,
                first,
                rest,
                blockhash,
                p,
                refl,
                q,
                ran action (first ∷ rest) calls instruction p
                    ∙ rw (after, q) (settled_end action (first ∷ rest) calls _ _),
              ))
        ]

    -- Whatever the action, the signers and the calls before, a method of the client ends in one of
    -- four ways: the builder throws, or there is no signer, and nothing is asked of the network; or
    -- the network gives no blockhash, and nothing is sent; or exactly one transaction is sent, which
    -- holds the instruction of that action for the client's program and nothing else, is paid by the
    -- first signer and signed by all, and carries the blockhash just given, and then the method
    -- returns the action's job id with the signature, or throws what the sending threw.
    pub settle_outcome :
        (action : Action PublicKey) (signers : List Keypair) (calls : List (Call sdk))
        → IsUnbuilt network program_id action signers calls
          ⊎ IsUnsigned network program_id action signers calls
          ⊎ IsOffline network program_id action signers calls
          ⊎ IsSent network program_id action signers calls
    settle_outcome action signers calls =
        elim (Result-cases (instruction_of action (or_default sdk program_id))) [
          | inr (e, p) ↦ inl (e, p, unbuilt action signers calls e p)
          | inl (instruction, p) ↦ inr (signed_by action signers calls instruction p)
        ]
