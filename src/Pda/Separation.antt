-- ===== src/Pda/Separation.antt =====
-- The addresses of pda.py do not collide, and their seeds are within Solana's limits.
use mathlib.Core.Path.{ap₂}
use native.Mathlib.Decide.{ℕ_discrete}
use ars_solana.Prelude.{
  ℕ, ◌≡◌, ◌≢◌, ◌⊎◌, inl, inr, refl, sym, ap, ◌∙◌, List, [], ◌∷◌, ◌++◌, length, take, drop,
  take-append, length-append, encode, Result, ok, arith,
}
use ars_solana.Solders.{Solders, AreSeeds, FindsAddresses}
use ars_solana.Pda.{
  agent_pda, bond_vault_pda, deposit_vault_pda, credit_line_pda, pool_config_pda, pool_vault_pda,
  pool_mint_auth_pda, score_feed_pda,
}

-- The bytes that are hashed for a list of seeds and a bump: the seeds are not delimited.
abbrev pub preimage : List (List ℕ) → ℕ → List ℕ
preimage [] bump = bump ∷ []
preimage (seed ∷ seeds) bump = seed ++ preimage seeds bump

abbrev first : List ℕ → ℕ
first [] = 0
first (b ∷ bs) = b

bytes_discrete : Discrete (List ℕ)
bytes_discrete = hlevel ℕ_discrete

module _ (s : Solders) where
  open s use {Pubkey, key_bytes, length-key_bytes, key_bytes_injective, program_address}

  -- What an address belongs to: the accounts of the program that pda.py derives.
  pub data Subject : Type 0 where
    agent bond_vault deposit_vault credit_line score_feed : Pubkey → Subject
    pool_config pool_vault pool_mint_auth : Subject

  abbrev pub pda_of : Subject → Pubkey → Result (Pubkey × ℕ)
  pda_of (agent k) p = agent_pda s k p
  pda_of (bond_vault k) p = bond_vault_pda s k p
  pda_of (deposit_vault k) p = deposit_vault_pda s k p
  pda_of (credit_line k) p = credit_line_pda s k p
  pda_of (score_feed k) p = score_feed_pda s k p
  pda_of pool_config p = pool_config_pda s p
  pda_of pool_vault p = pool_vault_pda s p
  pda_of pool_mint_auth p = pool_mint_auth_pda s p

  abbrev seeds_of : Subject → List (List ℕ)
  seeds_of (agent k) = encode "agent" ∷ key_bytes k ∷ []
  seeds_of (bond_vault k) = encode "vault" ∷ key_bytes k ∷ []
  seeds_of (deposit_vault k) = encode "deposit" ∷ key_bytes k ∷ []
  seeds_of (credit_line k) = encode "credit-line" ∷ key_bytes k ∷ []
  seeds_of (score_feed k) = encode "score-feed" ∷ key_bytes k ∷ []
  seeds_of pool_config = encode "pool-config" ∷ []
  seeds_of pool_vault = encode "pool-vault" ∷ []
  seeds_of pool_mint_auth = encode "pool-mint-auth" ∷ []

  pda_of-seeds : (x : Subject) (p : Pubkey) → pda_of x p ≡ program_address (seeds_of x) p
  unfolding agent_pda bond_vault_pda deposit_vault_pda credit_line_pda pool_config_pda
      pool_vault_pda pool_mint_auth_pda score_feed_pda
  pda_of-seeds (agent k) p = refl
  pda_of-seeds _ p = refl

  seeds_of-AreSeeds : (x : Subject) → AreSeeds (seeds_of x)
  unfolding encode
  seeds_of-AreSeeds (agent k) = omega (arith, length-key_bytes k)
  seeds_of-AreSeeds (bond_vault k) = omega (arith, length-key_bytes k)
  seeds_of-AreSeeds (deposit_vault k) = omega (arith, length-key_bytes k)
  seeds_of-AreSeeds (credit_line k) = omega (arith, length-key_bytes k)
  seeds_of-AreSeeds (score_feed k) = omega (arith, length-key_bytes k)
  seeds_of-AreSeeds _ = omega arith

  -- Seeds of the program are always found, with a bump.
  pub pda_of_found :
      FindsAddresses s → (x : Subject) (p : Pubkey) → (found : Pubkey × ℕ) × (pda_of x p ≡ ok found)
  pda_of_found finds x p =
      let (found, e) = finds (seeds_of x) p (seeds_of-AreSeeds x) in (found, pda_of-seeds x p ∙ e)

  abbrev size : Subject → ℕ
  size (agent k) = 38
  size (bond_vault k) = 38
  size (deposit_vault k) = 40
  size (credit_line k) = 44
  size (score_feed k) = 43
  size pool_config = 12
  size pool_vault = 11
  size pool_mint_auth = 15

  length-preimage : (x : Subject) (m : ℕ) → length (preimage (seeds_of x) m) ≡ size x
  unfolding encode
  length-preimage (agent k) m =
      omega (arith, length-key_bytes k, length-append (key_bytes k) (m ∷ []))
  length-preimage (bond_vault k) m =
      omega (arith, length-key_bytes k, length-append (key_bytes k) (m ∷ []))
  length-preimage (deposit_vault k) m =
      omega (arith, length-key_bytes k, length-append (key_bytes k) (m ∷ []))
  length-preimage (credit_line k) m =
      omega (arith, length-key_bytes k, length-append (key_bytes k) (m ∷ []))
  length-preimage (score_feed k) m =
      omega (arith, length-key_bytes k, length-append (key_bytes k) (m ∷ []))
  length-preimage _ m = refl

  same_key : (j k : Pubkey) (m n : ℕ) → key_bytes j ++ m ∷ [] ≡ key_bytes k ++ n ∷ [] → j ≡ k
  same_key j k m n e = key_bytes_injective j k (
      sym (take-append (key_bytes j) (m ∷ []))
      ∙ ap₂ (λ (i : ℕ) l. take i l) (length-key_bytes j ∙ sym (length-key_bytes k)) e
      ∙ take-append (key_bytes k) (n ∷ []))

  -- What is hashed determines the subject.
  preimage_injective :
      (x y : Subject) (m n : ℕ) → preimage (seeds_of x) m ≡ preimage (seeds_of y) n → x ≡ y
  unfolding encode
  preimage_injective (agent j) (agent k) m n e = ap agent (same_key j k m n (ap (drop 5) e))
  preimage_injective (bond_vault j) (bond_vault k) m n e =
      ap bond_vault (same_key j k m n (ap (drop 5) e))
  preimage_injective (deposit_vault j) (deposit_vault k) m n e =
      ap deposit_vault (same_key j k m n (ap (drop 7) e))
  preimage_injective (credit_line j) (credit_line k) m n e =
      ap credit_line (same_key j k m n (ap (drop 11) e))
  preimage_injective (score_feed j) (score_feed k) m n e =
      ap score_feed (same_key j k m n (ap (drop 10) e))
  preimage_injective pool_config pool_config m n e = refl
  preimage_injective pool_vault pool_vault m n e = refl
  preimage_injective pool_mint_auth pool_mint_auth m n e = refl
  preimage_injective (agent j) (bond_vault k) m n e = absurd (omega (arith, ap first e))
  preimage_injective (bond_vault j) (agent k) m n e = absurd (omega (arith, ap first e))
  preimage_injective x y m n e =
      absurd (omega (arith, ap length e, length-preimage x m, length-preimage y n))

  -- Two different preimages that give the same address of a program.
  abbrev pub Collision : Pubkey → Pubkey → Type 0
  Collision program k =
      (xs : List (List ℕ)) × (ys : List (List ℕ)) × (m : ℕ) × (n : ℕ) × (program_address xs program
        ≡ ok (k, m))
      × (program_address ys program ≡ ok (k, n))
      × (preimage xs m ≢ preimage ys n)

  -- Two of the derived addresses of a program are equal only for the same account kind and the same
  -- key, or else they exhibit a collision of the hash: no two kinds share a preimage, although
  -- seeds are hashed without delimiters.
  pub pda_separation :
      (x y : Subject) (program k : Pubkey) (m n : ℕ)
      → pda_of x program ≡ ok (k, m)
      → pda_of y program ≡ ok (k, n)
      → (x ≡ y) ⊎ Collision program k
  pda_separation x y program k m n p q =
      elim (bytes_discrete (preimage (seeds_of x) m) (preimage (seeds_of y) n)) [
        | yes e ↦ inl (preimage_injective x y m n e)
        | no e ↦ inr (
          seeds_of x,
          seeds_of y,
          m,
          n,
          sym (pda_of-seeds x program) ∙ p,
          sym (pda_of-seeds y program) ∙ q,
          e,
        )
      ]
