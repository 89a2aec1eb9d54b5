-- ===== src/Solders.antt =====
-- The `solders` package, which the program calls and does not contain: its operations and the
-- documented facts about them are parameters. `AccountMeta` and `Instruction` are plain data.
pub mod Model
use ars_solana.Prelude.{ℕ, String, ◌≡◌, ◌≤◌, Bool, List, length, All, Result, ok}

pub record Solders : Type 1 where
  pub Pubkey : Type 0
  -- `bytes(pubkey)`
  pub key_bytes : Pubkey → List ℕ
  -- `Pubkey.from_string`
  pub from_string : String → Result Pubkey
  -- `Pubkey.find_program_address`: an address and its bump seed
  pub program_address : List (List ℕ) → Pubkey → Result (Pubkey × ℕ)
  -- A key is 32 bytes, and these determine it.
  pub length-key_bytes : (k : Pubkey) → length (key_bytes k) ≡ 32
  pub key_bytes_injective : (j k : Pubkey) → key_bytes j ≡ key_bytes k → j ≡ k

pub record AccountMeta (P : Type 0) : Type 0 where
  pub pubkey : P
  pub is_signer : Bool
  pub is_writable : Bool

pub record Instruction (P : Type 0) : Type 0 where
  pub program_id : P
  pub accounts : List (AccountMeta P)
  pub data_bytes : List ℕ

-- Solana's limits: at most fifteen seeds beside the bump, of at most 32 bytes each.
abbrev pub AreSeeds : List (List ℕ) → Type 0
AreSeeds seeds = (length seeds ≤ 15) × All (λ seed. length seed ≤ 32) seeds

-- Within the limits a program address is found.
abbrev pub FindsAddresses : Solders → Type 0
FindsAddresses s =
    (seeds : List (List ℕ)) (program : s.Pubkey)
    → AreSeeds seeds
    → (found : s.Pubkey × ℕ) × (s.program_address seeds program ≡ ok found)
