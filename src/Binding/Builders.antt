-- ===== src/Binding/Builders.antt =====
-- The `build_*_ix` functions of binding.py, with `_disc` and `_u64_le`. The program id that the
-- source defaults is an argument; the keys that modules load on import are `c`.
use ars_solana.Prelude.{
  ℕ, String, Bool, true, false, ◌&&◌, Option, none, some, List, [], ◌∷◌, ◌++◌, take, ℤ, pos, leb_ℤ,
  ◌<+>◌, encode, str_int, Result, ok, raise, ◌>>=◌, ◌>>◌, value_error, to_bytes, bytes_of,
}
use ars_solana.Hashlib.{sha256}
use ars_solana.Solders.{Solders, AccountMeta, Instruction}
use ars_solana.Pda.{
  Constants, bond_vault_pda, deposit_vault_pda, credit_line_pda, pool_config_pda, pool_vault_pda,
  pool_mint_auth_pda,
}
use ars_solana.Binding.Params.{
  LockCollateralParams, SlashCollateralParams, UnlockCollateralParams, PayPremiumParams,
  ReleasePrincipalParams,
}

-- `_disc`
unfoldable pub disc : String → List ℕ
disc name = take 8 (sha256 (encode ("global:" <+> name)))

-- `0 <= v <= top`
abbrev pub in_range : ℤ → ℕ → Bool
in_range v top = leb_ℤ (pos 0) v && leb_ℤ v (pos top)

-- `if not test: raise ValueError(message)`
abbrev pub require : Bool → String → Result (Unit {0})
require true message = ok tt
require false message = raise (value_error message)

-- `_u64_le`
unfoldable pub u64_le : ℤ → Result (List ℕ)
unfolding to_bytes str_int
u64_le value = do
  require (in_range value 0xffff_ffff_ffff_ffff) ("u64 out of range: " <+> str_int value)
  to_bytes 8 value

abbrev pub meta : {P : Type 0} → P → Bool → Bool → AccountMeta P
meta key signer writable = record { pubkey = key; is_signer = signer; is_writable = writable }

-- `key if key is not None else default`
abbrev pub or_else : {P : Type 0} → Option P → P → P
or_else none default = default
or_else (some key) default = key

module _ (s : Solders) (c : Constants s.Pubkey) where
  open s use {Pubkey}

  unfoldable pub build_view_bond_ix :
      LockCollateralParams Pubkey → Pubkey → Result (Instruction Pubkey)
  unfolding disc to_bytes
  build_view_bond_ix params program_id = do
    require (in_range params.min_score 0xffff) "min_score must fit in u16 (0..65535)"
    require (in_range params.min_bond_atomic 0xffff_ffff_ffff_ffff)
        "min_bond_atomic must fit in u64"
    bond ← to_bytes 8 params.min_bond_atomic
    score ← to_bytes 2 params.min_score
    ok (record {
      program_id = program_id;
      accounts = meta params.agent false false ∷ [];
      data_bytes = disc "view_bond" ++ (bond ++ score);
    })

  unfoldable pub build_resolve_claim_ix :
      SlashCollateralParams Pubkey → Pubkey → ℤ → Result (Instruction Pubkey)
  unfolding disc bytes_of bond_vault_pda deposit_vault_pda
  build_resolve_claim_ix params program_id action = do
    require (in_range action 255) "action must fit in u8 (0..255)"
    (bond_vault, _) ← bond_vault_pda s params.agent program_id
    (deposit_vault, _) ← deposit_vault_pda s params.claim program_id
    byte ← bytes_of action
    ok (record {
      program_id = program_id;
      accounts =
          meta params.claim false true
          ∷ meta params.agent false true
          ∷ meta params.bond_mint false false
          ∷ meta bond_vault false true
          ∷ meta deposit_vault false true
          ∷ meta params.claimer_bond_ata false true
          ∷ meta params.signer true false
          ∷ meta c.token_program_id false false
          ∷ [];
      data_bytes = disc "resolve_claim" ++ byte;
    })

  unfoldable pub build_withdraw_bond_ix :
      UnlockCollateralParams Pubkey → Pubkey → Result (Instruction Pubkey)
  unfolding disc u64_le bond_vault_pda
  build_withdraw_bond_ix params program_id = do
    (bond_vault, _) ← bond_vault_pda s params.agent program_id
    amount ← u64_le params.amount_atomic
    ok (record {
      program_id = program_id;
      accounts =
          meta params.agent false true
          ∷ meta params.bond_mint false false
          ∷ meta bond_vault false true
          ∷ meta params.controller_bond_ata false true
          ∷ meta params.controller true false
          ∷ meta c.token_program_id false false
          ∷ [];
      data_bytes = disc "withdraw_bond" ++ amount;
    })

  unfoldable pub build_process_pool_yield_ix :
      PayPremiumParams Pubkey → Pubkey → Option Pubkey → Result (Instruction Pubkey)
  unfolding disc u64_le pool_config_pda pool_vault_pda
  build_process_pool_yield_ix params program_id source_ata = do
    (pool, _) ← pool_config_pda s program_id
    (vault, _) ← pool_vault_pda s program_id
    amount ← u64_le params.amount_atomic
    ok (record {
      program_id = program_id;
      accounts =
          meta pool false true
          ∷ meta vault false true
          ∷ meta (or_else source_ata params.underwriter) false true
          ∷ meta params.payer true false
          ∷ meta c.token_program_id false false
          ∷ [];
      data_bytes = disc "process_pool_yield" ++ amount;
    })

  unfoldable pub build_request_credit_ix :
      ReleasePrincipalParams Pubkey → Pubkey → Option Pubkey → Result (Instruction Pubkey)
  unfolding disc u64_le bond_vault_pda credit_line_pda pool_config_pda pool_vault_pda
      pool_mint_auth_pda
  build_request_credit_ix params program_id controller = do
    (bond_vault, _) ← bond_vault_pda s params.agent program_id
    (credit_line, _) ← credit_line_pda s params.agent program_id
    (pool, _) ← pool_config_pda s program_id
    (pool_vault, _) ← pool_vault_pda s program_id
    (pool_mint_auth, _) ← pool_mint_auth_pda s program_id
    amount ← u64_le params.amount_atomic
    ok (record {
      program_id = program_id;
      accounts =
          meta params.agent false true
          ∷ meta credit_line false true
          ∷ meta bond_vault false true
          ∷ meta pool false true
          ∷ meta pool_vault false true
          ∷ meta pool_mint_auth false false
          ∷ meta (or_else controller params.agent) true true
          ∷ meta c.token_program_id false false
          ∷ meta c.system_program_id false false
          ∷ [];
      data_bytes = disc "request_credit" ++ amount;
    })
