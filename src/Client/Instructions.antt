-- ===== src/Client/Instructions.antt =====
-- src/binding.ts: the instruction of each settlement action. The packages @telaro/sdk and
-- @solana/web3.js, which have the builders and the key types, are the record Sdk; a builder may throw.
use ars_solana.Prelude.{ℕ, String, ℤ, Result}

-- The accounts that the builders take.
pub record ResolveClaimAccounts (P : Type 0) : Type 0 where
  pub claim : P
  pub agent : P
  pub bond_mint : P
  pub claimer_bond_ata : P
  pub signer : P

pub record WithdrawBondAccounts (P : Type 0) : Type 0 where
  pub agent : P
  pub bond_mint : P
  pub controller : P
  pub controller_bond_ata : P

pub record ProcessPoolYieldAccounts (P : Type 0) : Type 0 where
  pub source_ata : P
  pub source_authority : P

pub record RequestCreditAccounts (P : Type 0) : Type 0 where
  pub agent : P
  pub controller : P

-- The last argument of each builder is the program's id.
pub record Sdk : Type 1 where
  pub PublicKey : Type 0
  pub Keypair : Type 0
  pub TransactionInstruction : Type 0
  pub public_key : Keypair → PublicKey
  pub program_id : PublicKey
  pub view_bond : PublicKey → (min_bond min_score : ℤ) → PublicKey → Result TransactionInstruction
  pub resolve_claim :
      ResolveClaimAccounts PublicKey → (action : ℕ) → PublicKey → Result TransactionInstruction
  pub withdraw_bond :
      WithdrawBondAccounts PublicKey → (amount : ℤ) → PublicKey → Result TransactionInstruction
  pub process_pool_yield :
      ProcessPoolYieldAccounts PublicKey → (amount : ℤ) → PublicKey → Result TransactionInstruction
  pub request_credit :
      RequestCreditAccounts PublicKey → (amount : ℤ) → PublicKey → Result TransactionInstruction

pub record LockCollateralParams (P : Type 0) : Type 0 where
  pub job_id : String
  pub agent : P
  pub min_bond_atomic : ℤ
  pub min_score : ℤ

pub record SlashCollateralParams (P : Type 0) : Type 0 where
  pub job_id : String
  pub claim : P
  pub agent : P
  pub bond_mint : P
  pub claimer_bond_ata : P
  pub signer : P

pub record UnlockCollateralParams (P : Type 0) : Type 0 where
  pub job_id : String
  pub agent : P
  pub bond_mint : P
  pub controller : P
  pub controller_bond_ata : P
  pub amount_atomic : ℤ

pub record PayPremiumParams (P : Type 0) : Type 0 where
  pub job_id : String
  pub source_ata : P
  pub source_authority : P
  pub amount_atomic : ℤ

pub record ReleasePrincipalParams (P : Type 0) : Type 0 where
  pub job_id : String
  pub agent : P
  pub controller : P
  pub amount_atomic : ℤ

-- The builder accepts the claim.
abbrev pub resolve_accept : ℕ
resolve_accept = 0

module _ (sdk : Sdk) where
  open sdk use {PublicKey, TransactionInstruction}

  abbrev pub lock_collateral_ix :
      LockCollateralParams PublicKey → PublicKey → Result TransactionInstruction
  lock_collateral_ix params program_id =
      sdk.view_bond params.agent params.min_bond_atomic params.min_score program_id

  abbrev pub slash_collateral_ix :
      SlashCollateralParams PublicKey → PublicKey → Result TransactionInstruction
  slash_collateral_ix params program_id =
      sdk.resolve_claim
        (record {
          claim = params.claim;
          agent = params.agent;
          bond_mint = params.bond_mint;
          claimer_bond_ata = params.claimer_bond_ata;
          signer = params.signer;
        })
        resolve_accept program_id

  abbrev pub unlock_collateral_ix :
      UnlockCollateralParams PublicKey → PublicKey → Result TransactionInstruction
  unlock_collateral_ix params program_id =
      sdk.withdraw_bond
        (record {
          agent = params.agent;
          bond_mint = params.bond_mint;
          controller = params.controller;
          controller_bond_ata = params.controller_bond_ata;
        })
        params.amount_atomic program_id

  abbrev pub pay_premium_ix : PayPremiumParams PublicKey → PublicKey → Result TransactionInstruction
  pay_premium_ix params program_id =
      sdk.process_pool_yield
        (record { source_ata = params.source_ata; source_authority = params.source_authority })
        params.amount_atomic program_id

  abbrev pub release_principal_ix :
      ReleasePrincipalParams PublicKey → PublicKey → Result TransactionInstruction
  release_principal_ix params program_id =
      sdk.request_credit (record { agent = params.agent; controller = params.controller })
        params.amount_atomic program_id
