-- ===== src/Binding/Carries.antt =====
-- The data of the five `build_*_ix` of binding.py, against their `*_intent`.
use mathlib.Core.Path.{subst, ap₂}
use ars_solana.Prelude.{
  ℕ, ◌≡◌, ◌<◌, inl, inr, refl, sym, ap, ◌∙◌, Option, List, [], ◌∷◌, ◌++◌, map, length,
  length-append, ℤ, pos, ok, >>=-eq-ok, ok-injective, to_bytes, to_bytes-eq-ok, bytes_of,
  Bool-cases, ltb, ltb→lt, negsuc, from_bytes, little_endian, length-little_endian, arith,
}
use ars_solana.Solders.{Solders, Instruction}
use ars_solana.Pda.{
  Constants, bond_vault_pda, deposit_vault_pda, credit_line_pda, pool_config_pda, pool_vault_pda,
  pool_mint_auth_pda,
}
use ars_solana.Binding.Params.{
  LockCollateralParams, SlashCollateralParams, UnlockCollateralParams, PayPremiumParams,
  ReleasePrincipalParams,
}
use ars_solana.Binding.Intents.{
  lock_collateral_intent, slash_collateral_intent, unlock_collateral_intent, pay_premium_intent,
  release_principal_intent,
}
use ars_solana.Binding.Builders.{
  disc, in_range, u64_le, build_view_bond_ix, build_resolve_claim_ix, build_withdraw_bond_ix,
  build_process_pool_yield_ix, build_request_credit_ix,
}
use ars_solana.Binding.Layout.{
  Call, lock, slash, unlock, pay, release, fields, build_of, Carries, carries, Carries-amount, tag,
  payload, field, last_field, length-disc, after_require,
}

module _ (s : Solders) (c : Constants s.Pubkey) where
  open s use {Pubkey}

  lock-Carries :
      (params : LockCollateralParams Pubkey) (p : Pubkey) (ix : Instruction Pubkey)
      → build_view_bond_ix s c params p ≡ ok ix
      → Carries s c (lock params) p ix
  unfolding build_view_bond_ix lock_collateral_intent
  lock-Carries params p ix h =
      let h0 =
        after_require (in_range params.min_score 0xffff) "min_score must fit in u16 (0..65535)" _
          h in
      let h1 =
        after_require (in_range params.min_bond_atomic 0xffff_ffff_ffff_ffff)
          "min_bond_atomic must fit in u64" _ h0 in
      let (bond, b, h2) = >>=-eq-ok (to_bytes 8 params.min_bond_atomic) _ h1 in
      let (score, d, h3) = >>=-eq-ok (to_bytes 2 params.min_score) _ h2 in
      let (m, bm, bl, bq) = to_bytes-eq-ok 8 params.min_bond_atomic bond b in
      let (n, sm, sl, sq) = to_bytes-eq-ok 2 params.min_score score d in
      subst (Carries s c (lock params) p) (ok-injective h3) (
        carries s c (lock params) p _ refl (tag "view_bond" (bond ++ score))
          (ap (λ (l : List ℕ). map pos (fields (8 ∷ 2 ∷ []) l))
              (payload "view_bond" (bond ++ score) ∙ ap₂ (λ (x y : List ℕ). x ++ y) bq sq)
            ∙ ap (map pos) (field 8 m (2 ∷ []) (little_endian 2 n) bl)
            ∙ ap (λ (l : List ℕ). pos m ∷ map pos l) (last_field 2 n sl)
            ∙ ap₂ (λ (x y : ℤ). x ∷ y ∷ []) (sym bm) (sym sm))
          (length-append (disc "view_bond") (bond ++ score)
            ∙ omega (
              arith,
              length-disc "view_bond",
              length-append bond score,
              ap length bq,
              ap length sq,
              length-little_endian 8 m,
              length-little_endian 2 n,
            )))

  -- `bytes([v])` is the one-byte encoding.
  byte_of :
      (v : ℤ) (bs : List ℕ) → bytes_of v ≡ ok bs → (k : ℕ) × (v ≡ pos k) × (k < 256) × (bs ≡ k ∷ [])
  unfolding bytes_of
  byte_of (pos k) bs h = elim (Bool-cases (ltb k 256)) [
    | inl p ↦ (k, refl, ltb→lt k 256 p, sym (ok-injective (rw p at h)))
    | inr p ↦ let h' = rw p at h in cc
  ]
  byte_of (negsuc k) bs h = cc

  from_bytes_one : (k : ℕ) → from_bytes (k ∷ []) ≡ k
  unfolding from_bytes
  from_bytes_one k = omega arith

  slash-Carries :
      (params : SlashCollateralParams Pubkey) (action : ℤ) (p : Pubkey) (ix : Instruction Pubkey)
      → build_resolve_claim_ix s c params p action ≡ ok ix
      → Carries s c (slash params action) p ix
  unfolding build_resolve_claim_ix slash_collateral_intent
  slash-Carries params action p ix h =
      let h0 = after_require (in_range action 255) "action must fit in u8 (0..255)" _ h in
      let (v, _, h1) = >>=-eq-ok (bond_vault_pda s params.agent p) _ h0 in
      let (d, _, h2) = >>=-eq-ok (deposit_vault_pda s params.claim p) _ h1 in
      let (bs, b, h3) = >>=-eq-ok (bytes_of action) _ h2 in
      let (k, same, lt, q) = byte_of action bs b in
      subst (Carries s c (slash params action) p) (ok-injective h3) (
        carries s c (slash params action) p _ refl (tag "resolve_claim" bs)
          (ap (λ (l : List ℕ). map pos (fields (1 ∷ []) l)) (payload "resolve_claim" bs ∙ q)
            ∙ ap (λ n. pos n ∷ []) (from_bytes_one k)
            ∙ sym (ap (λ z. z ∷ []) same))
          (length-append (disc "resolve_claim") bs
            ∙ omega (arith, length-disc "resolve_claim", ap length q)))

  unlock-Carries :
      (params : UnlockCollateralParams Pubkey) (p : Pubkey) (ix : Instruction Pubkey)
      → build_withdraw_bond_ix s c params p ≡ ok ix
      → Carries s c (unlock params) p ix
  unfolding build_withdraw_bond_ix unlock_collateral_intent
  unlock-Carries params p ix h =
      let (v, _, h1) = >>=-eq-ok (bond_vault_pda s params.agent p) _ h in
      let (bs, a, h2) = >>=-eq-ok (u64_le params.amount_atomic) _ h1 in
      subst (Carries s c (unlock params) p) (ok-injective h2)
        (Carries-amount s c (unlock params) p _ bs params.amount_atomic a refl refl refl refl)

  pay-Carries :
      (params : PayPremiumParams Pubkey) (source : Option Pubkey) (p : Pubkey)
      (ix : Instruction Pubkey)
      → build_process_pool_yield_ix s c params p source ≡ ok ix
      → Carries s c (pay params source) p ix
  unfolding build_process_pool_yield_ix pay_premium_intent
  pay-Carries params source p ix h =
      let (pool, _, h1) = >>=-eq-ok (pool_config_pda s p) _ h in
      let (vault, _, h2) = >>=-eq-ok (pool_vault_pda s p) _ h1 in
      let (bs, a, h3) = >>=-eq-ok (u64_le params.amount_atomic) _ h2 in
      subst (Carries s c (pay params source) p) (ok-injective h3)
        (Carries-amount s c (pay params source) p _ bs params.amount_atomic a refl refl refl refl)

  release-Carries :
      (params : ReleasePrincipalParams Pubkey) (controller : Option Pubkey) (p : Pubkey)
      (ix : Instruction Pubkey)
      → build_request_credit_ix s c params p controller ≡ ok ix
      → Carries s c (release params controller) p ix
  unfolding build_request_credit_ix release_principal_intent
  release-Carries params controller p ix h =
      let (v, _, h1) = >>=-eq-ok (bond_vault_pda s params.agent p) _ h in
      let (l, _, h2) = >>=-eq-ok (credit_line_pda s params.agent p) _ h1 in
      let (pool, _, h3) = >>=-eq-ok (pool_config_pda s p) _ h2 in
      let (vault, _, h4) = >>=-eq-ok (pool_vault_pda s p) _ h3 in
      let (auth, _, h5) = >>=-eq-ok (pool_mint_auth_pda s p) _ h4 in
      let (bs, a, h6) = >>=-eq-ok (u64_le params.amount_atomic) _ h5 in
      subst (Carries s c (release params controller) p) (ok-injective h6) (
        Carries-amount s c (release params controller) p _ bs params.amount_atomic a refl refl refl
          refl)

  -- Whatever the action, its parameters and its keyword arguments, an instruction that is built has
  -- the program id of the action's intent, begins with the discriminator of the intent's method, and
  -- continues with little-endian fields that are the numbers given to the builder, in their order
  -- and with nothing after; and these are the arguments of the intent exactly if the call does not
  -- resolve a claim, or resolves it with the action 0.
  pub build-Carries :
      (call : Call Pubkey) (p : Pubkey) (ix : Instruction Pubkey)
      → build_of s c call p ≡ ok ix
      → Carries s c call p ix
  build-Carries (lock params) p ix h = lock-Carries params p ix h
  build-Carries (slash params action) p ix h = slash-Carries params action p ix h
  build-Carries (unlock params) p ix h = unlock-Carries params p ix h
  build-Carries (pay params source) p ix h = pay-Carries params source p ix h
  build-Carries (release params controller) p ix h = release-Carries params controller p ix h
