-- ===== src/Pda.antt =====
-- python/src/telaro_ars/pda.py and constants.py: program-derived addresses of the Telaro program,
-- and the pinned constants. Each function takes the program id that it defaults in the source.
pub mod Separation
use ars_solana.Prelude.{ℕ, String, List, [], ◌∷◌, encode, Result, ok, ◌>>=◌}
use ars_solana.Solders.{Solders}

-- constants.py
abbrev pub min_bond_usdc_atomic : ℕ
min_bond_usdc_atomic = 1_000_000

abbrev pub min_score_for_credit : ℕ
min_score_for_credit = 700

abbrev pub max_leverage_ratio : ℕ
max_leverage_ratio = 5

-- The keys that the modules read from base58 when they are imported.
pub record Constants (P : Type 0) : Type 0 where
  pub program_id_devnet : P
  pub token_program_id : P
  pub system_program_id : P

module _ (s : Solders) where
  open s use {Pubkey, key_bytes, from_string, program_address}

  -- The literals of the two modules; the import of either raises if one is not a key.
  abbrev load_program_id_devnet : Result Pubkey
  load_program_id_devnet = from_string "3DUrvVWEziYLtEbiDtfxqh1ioXRFX6DNvV4iTsGed2rs"

  abbrev load_token_program_id : Result Pubkey
  load_token_program_id = from_string "TokenkegQfeZyiNwAJbNbGKPFXCWuBvf9Ss623VQ5DA"

  abbrev load_system_program_id : Result Pubkey
  load_system_program_id = from_string "11111111111111111111111111111111"

  -- pda.py imports constants.py first.
  pub load_constants : Result (Constants Pubkey)
  load_constants = do
    devnet ← load_program_id_devnet
    token ← load_token_program_id
    system ← load_system_program_id
    ok (record { program_id_devnet = devnet; token_program_id = token; system_program_id = system })

  unfoldable pub find_program_address : List (List ℕ) → Pubkey → Result (Pubkey × ℕ)
  find_program_address seeds program_id = program_address seeds program_id

  unfoldable pub agent_pda : Pubkey → Pubkey → Result (Pubkey × ℕ)
  unfolding find_program_address
  agent_pda controller program_id =
      find_program_address (encode "agent" ∷ key_bytes controller ∷ []) program_id

  unfoldable pub bond_vault_pda : Pubkey → Pubkey → Result (Pubkey × ℕ)
  unfolding find_program_address
  bond_vault_pda agent program_id =
      find_program_address (encode "vault" ∷ key_bytes agent ∷ []) program_id

  unfoldable pub deposit_vault_pda : Pubkey → Pubkey → Result (Pubkey × ℕ)
  unfolding find_program_address
  deposit_vault_pda claim program_id =
      find_program_address (encode "deposit" ∷ key_bytes claim ∷ []) program_id

  unfoldable pub credit_line_pda : Pubkey → Pubkey → Result (Pubkey × ℕ)
  unfolding find_program_address
  credit_line_pda agent program_id =
      find_program_address (encode "credit-line" ∷ key_bytes agent ∷ []) program_id

  unfoldable pub pool_config_pda : Pubkey → Result (Pubkey × ℕ)
  unfolding find_program_address
  pool_config_pda program_id = find_program_address (encode "pool-config" ∷ []) program_id

  unfoldable pub pool_vault_pda : Pubkey → Result (Pubkey × ℕ)
  unfolding find_program_address
  pool_vault_pda program_id = find_program_address (encode "pool-vault" ∷ []) program_id

  unfoldable pub pool_mint_auth_pda : Pubkey → Result (Pubkey × ℕ)
  unfolding find_program_address
  pool_mint_auth_pda program_id = find_program_address (encode "pool-mint-auth" ∷ []) program_id

  unfoldable pub score_feed_pda : Pubkey → Pubkey → Result (Pubkey × ℕ)
  unfolding find_program_address
  score_feed_pda agent program_id =
      find_program_address (encode "score-feed" ∷ key_bytes agent ∷ []) program_id
