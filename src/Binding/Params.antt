-- ===== src/Binding/Params.antt =====
-- The parameter dataclasses of binding.py.
use ars_solana.Prelude.{String, ℤ}

pub record LockCollateralParams (P : Type 0) : Type 0 where
  pub job_id : String
  pub agent : P
  pub min_bond_atomic : ℤ
  pub min_score : ℤ

pub record SlashCollateralParams (P : Type 0) : Type 0 where
  pub job_id : String
  pub claim : P
  pub agent : P
  pub bond_mint : P
  pub claimer_bond_ata : P
  pub signer : P

pub record UnlockCollateralParams (P : Type 0) : Type 0 where
  pub job_id : String
  pub agent : P
  pub bond_mint : P
  pub controller : P
  pub controller_bond_ata : P
  pub amount_atomic : ℤ

pub record PayPremiumParams (P : Type 0) : Type 0 where
  pub job_id : String
  pub payer : P
  pub underwriter : P
  pub amount_atomic : ℤ

pub record ReleasePrincipalParams (P : Type 0) : Type 0 where
  pub job_id : String
  pub agent : P
  pub credit_line : P
  pub amount_atomic : ℤ
