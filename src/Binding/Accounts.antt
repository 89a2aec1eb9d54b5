-- ===== src/Binding/Accounts.antt =====
-- The accounts of the built instructions of binding.py: who signs, and what is derived.
use ars_solana.Prelude.{
  ℕ, get_elem?, String, to_bytes, bytes_of, ◌&&◌, ◌≡◌, refl, Bool, true, false, Option, none, some,
  List, [], ◌∷◌, ok, >>=-eq-ok, ok-injective, if◌then◌else◌,
}
use ars_solana.Solders.{Solders, Instruction, AccountMeta}
use ars_solana.Pda.{
  Constants, bond_vault_pda, deposit_vault_pda, credit_line_pda, pool_config_pda, pool_vault_pda,
  pool_mint_auth_pda,
}
use ars_solana.Binding.Params.{ReleasePrincipalParams}
use mathlib.Core.Path.{subst}
use ars_solana.Binding.Builders.{
  or_else, in_range, meta, u64_le, build_view_bond_ix, build_resolve_claim_ix,
  build_withdraw_bond_ix, build_process_pool_yield_ix, build_request_credit_ix,
}
use ars_solana.Binding.Layout.{Call, lock, slash, unlock, pay, release, build_of, after_require}

-- The keys that must sign, in account order.
abbrev pub signers : {P : Type 0} → List (AccountMeta P) → List P
signers [] = []
signers (a ∷ others) = let rest = signers others in if a.is_signer then a.pubkey ∷ rest else rest

-- Who is to authorise an action: nobody where it only reads.
abbrev pub authority : {P : Type 0} → Call P → List P
authority (lock params) = []
authority (slash params action) = params.signer ∷ []
authority (unlock params) = params.controller ∷ []
authority (pay params source) = params.payer ∷ []
authority (release params none) = params.agent ∷ []
authority (release params (some controller)) = controller ∷ []

-- The signers that are writable as well, in account order.
abbrev pub writable_signers : {P : Type 0} → List (AccountMeta P) → List P
writable_signers [] = []
writable_signers (a ∷ others) =
    let rest = writable_signers others in
    if a.is_signer && a.is_writable then a.pubkey ∷ rest else rest

-- The accounts of an intent, without their roles.
abbrev pub metas : {P : Type 0} → List (String × P × Bool × Bool) → List (AccountMeta P)
metas [] = []
metas ((role, key, signer, writable) ∷ others) = meta key signer writable ∷ metas others

-- The actions whose intent names the account that signs.
abbrev pub NamesSigner : {P : Type 0} → Call P → Type 0
NamesSigner (slash params action) = Unit {0}
NamesSigner (unlock params) = Unit {0}
NamesSigner (pay params source) = Unit {0}
NamesSigner _ = ⊥

module _ (s : Solders) (c : Constants s.Pubkey) where
  open s use {Pubkey}

  -- The facts about the accounts of one action's instruction.
  Authorised : Call Pubkey → Instruction Pubkey → Type 0
  Authorised call ix =
      (signers ix.accounts ≡ authority call)
      × (NamesSigner call → writable_signers ix.accounts ≡ [])

  -- What an instruction for a draw holds, over its accounts and the derived credit line.
  Draws : ReleasePrincipalParams Pubkey → Option Pubkey → Pubkey × ℕ → Instruction Pubkey → Type 0
  Draws params controller line ix =
      (get_elem? ix.accounts 1 ≡ some (meta line.0 false true))
      × (signers ix.accounts ≡ authority (release params controller))

  release-Draws :
      (params : ReleasePrincipalParams Pubkey) (controller : Option Pubkey) (p : Pubkey)
      (ix : Instruction Pubkey)
      → build_request_credit_ix s c params p controller ≡ ok ix
      → (line : Pubkey × ℕ) × (credit_line_pda s params.agent p ≡ ok line)
        × Draws params controller line ix
  unfolding build_request_credit_ix Draws
  release-Draws params controller p ix h =
      let (v, _, h1) = >>=-eq-ok (bond_vault_pda s params.agent p) _ h in
      let (l, e, h2) = >>=-eq-ok (credit_line_pda s params.agent p) _ h1 in
      let (pool, _, h3) = >>=-eq-ok (pool_config_pda s p) _ h2 in
      let (vault, _, h4) = >>=-eq-ok (pool_vault_pda s p) _ h3 in
      let (auth, _, h5) = >>=-eq-ok (pool_mint_auth_pda s p) _ h4 in
      let (bs, a, h6) = >>=-eq-ok (u64_le params.amount_atomic) _ h5 in
      (l, e, subst (Draws params controller l) (ok-injective h6) (refl, signs controller))
    where
      signs : (k : Option Pubkey) → or_else k params.agent ∷ [] ≡ authority (release params k)
      signs none = refl
      signs (some k) = refl

  built-Authorised :
      (call : Call Pubkey) (p : Pubkey) (ix : Instruction Pubkey)
      → build_of s c call p ≡ ok ix
      → Authorised call ix
  unfolding Authorised build_view_bond_ix build_resolve_claim_ix build_withdraw_bond_ix
      build_process_pool_yield_ix build_request_credit_ix
  built-Authorised (lock params) p ix h =
      let h0 =
        after_require (in_range params.min_score 0xffff) "min_score must fit in u16 (0..65535)" _
          h in
      let h1 =
        after_require (in_range params.min_bond_atomic 0xffff_ffff_ffff_ffff)
          "min_bond_atomic must fit in u64" _ h0 in
      let (bond, b, h2) = >>=-eq-ok (to_bytes 8 params.min_bond_atomic) _ h1 in
      let (score, d, h3) = >>=-eq-ok (to_bytes 2 params.min_score) _ h2 in
      subst (Authorised (lock params)) (ok-injective h3) (refl, λ n. absurd n)
  built-Authorised (slash params action) p ix h =
      let h0 = after_require (in_range action 255) "action must fit in u8 (0..255)" _ h in
      let (v, _, h1) = >>=-eq-ok (bond_vault_pda s params.agent p) _ h0 in
      let (d, _, h2) = >>=-eq-ok (deposit_vault_pda s params.claim p) _ h1 in
      let (byte, _, h3) = >>=-eq-ok (bytes_of action) _ h2 in
      subst (Authorised (slash params action)) (ok-injective h3) (refl, λ n. refl)
  built-Authorised (unlock params) p ix h =
      let (v, _, h1) = >>=-eq-ok (bond_vault_pda s params.agent p) _ h in
      let (bs, a, h2) = >>=-eq-ok (u64_le params.amount_atomic) _ h1 in
      subst (Authorised (unlock params)) (ok-injective h2) (refl, λ n. refl)
  built-Authorised (pay params source) p ix h =
      let (pool, _, h1) = >>=-eq-ok (pool_config_pda s p) _ h in
      let (vault, _, h2) = >>=-eq-ok (pool_vault_pda s p) _ h1 in
      let (bs, a, h3) = >>=-eq-ok (u64_le params.amount_atomic) _ h2 in
      subst (Authorised (pay params source)) (ok-injective h3) (refl, λ n. refl)
  built-Authorised (release params controller) p ix h =
      let (line, _, d) = release-Draws params controller p ix h in (signed line d, λ n. absurd n)
    where
      signed :
          (line : Pubkey × ℕ)
          → Draws params controller line ix
          → signers ix.accounts ≡ authority (release params controller)
      signed line d = unfold Draws in d.1

  -- Every built instruction is signed by exactly the account that authorises the action: nobody
  -- for the read-only check of the bond, the claim's signer whatever its `action`, the bond's controller, the payer, and
  -- for a draw the given controller, or the agent where none is given.
  pub build_signers :
      (call : Call Pubkey) (p : Pubkey) (ix : Instruction Pubkey)
      → build_of s c call p ≡ ok ix
      → signers ix.accounts ≡ authority call
  unfolding Authorised
  build_signers call p ix h = (built-Authorised call p ix h).0

  -- The second account of a built draw is the credit line derived from the agent, writable,
  -- whatever account the parameters name as the credit line.
  pub draw_uses_derived_line :
      (params : ReleasePrincipalParams Pubkey) (controller : Option Pubkey) (p : Pubkey)
      (ix : Instruction Pubkey)
      → build_request_credit_ix s c params p controller ≡ ok ix
      → (line : Pubkey × ℕ) × (credit_line_pda s params.agent p ≡ ok line)
        × (get_elem? ix.accounts 1 ≡ some (meta line.0 false true))
  unfolding Draws
  draw_uses_derived_line params controller p ix h =
      let (line, e, d) = release-Draws params controller p ix h in (line, e, d.0)
