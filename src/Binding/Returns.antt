-- ===== src/Binding/Returns.antt =====
-- When the `build_*_ix` functions of binding.py return, and what they raise otherwise.
use ars_solana.Prelude.{
  ℕ, ◌^◌, ◌<◌, ◌≡◌, ◌↔◌, ◌⊎◌, inl, inr, refl, true, List, ℤ, pos, negsuc, ◌≤ℤ◌, Result, ok, ◌>>=◌,
  Raises, Raises->>=, IsValueError, to_bytes, to_bytes_returns, little_endian, bytes_of, Bool-cases,
  ltb, lt→ltb, [], ◌∷◌, arith,
}
use ars_solana.Solders.{Solders, FindsAddresses}
use ars_solana.Pda.{Constants}
use ars_solana.Pda.Separation.{
  bond_vault, deposit_vault, credit_line, pool_config, pool_vault, pool_mint_auth, pda_of_found,
}
use ars_solana.Binding.Params.{LockCollateralParams, SlashCollateralParams}
use ars_solana.Binding.Builders.{
  in_range, u64_le, build_view_bond_ix, build_resolve_claim_ix, build_withdraw_bond_ix,
  build_process_pool_yield_ix, build_request_credit_ix,
}
use ars_solana.Binding.Layout.{Call, lock, slash, unlock, pay, release, build_of}

-- The integer fits an unsigned field with this greatest value.
abbrev pub Fits : ℤ → ℕ → Type 0
Fits v top = (pos 0 ≤ℤ v) × (v ≤ℤ pos top)

abbrev u64_max : ℕ
u64_max = 0xffff_ffff_ffff_ffff

-- The numbers of a call fit the fields of its instruction.
abbrev pub IsEncodable : {P : Type 0} → Call P → Type 0
IsEncodable (lock params) = Fits params.min_score 0xffff × Fits params.min_bond_atomic u64_max
IsEncodable (slash params action) = Fits action 255
IsEncodable (unlock params) = Fits params.amount_atomic u64_max
IsEncodable (pay params source) = Fits params.amount_atomic u64_max
IsEncodable (release params controller) = Fits params.amount_atomic u64_max

-- A call returns where `Q` holds, and raises a `ValueError` where it does not.
abbrev pub ReturnsIff {ℓ} : {A : Type ℓ} → Type 0 → Result A → Type ℓ
ReturnsIff {A} Q r = (Q × (a : A) × (r ≡ ok a)) ⊎ ((¬ Q) × Raises IsValueError r)

in_range_iff : (v : ℤ) (top : ℕ) → (in_range v top ≡ true) ↔ Fits v top
in_range_iff v top = ground arith

to_bytes-Fits :
    (n top : ℕ) (v : ℤ) → top < 256 ^ n → Fits v top → (bs : List ℕ) × (to_bytes n v ≡ ok bs)
to_bytes-Fits n top (pos k) lt fits = (little_endian n k, to_bytes_returns n k (omega arith))
to_bytes-Fits n top (negsuc k) lt fits = absurd (omega arith)

byte_returns : (v : ℤ) → Fits v 255 → (bs : List ℕ) × (bytes_of v ≡ ok bs)
unfolding bytes_of
byte_returns (pos k) fits =
    let lt : ltb k 256 ≡ true = lt→ltb k 256 (omega arith) in (k ∷ [], rw lt refl)
byte_returns (negsuc k) fits = absurd (omega arith)

u64_le_returns : (v : ℤ) → ReturnsIff (Fits v u64_max) (u64_le v)
unfolding u64_le
u64_le_returns v = elim (Bool-cases (in_range v u64_max)) [
  | inl p ↦
      let fits = (in_range_iff v u64_max).0 p in
      let (bs, e) = to_bytes-Fits 8 u64_max v (omega arith) fits in inl (fits, bs, rw p e)
  | inr p ↦ inr (λ fits. ground (arith, (in_range_iff v u64_max).1 fits), rw p tt)
]

ReturnsIff-map {ℓ κ} :
    {A : Type ℓ} {B : Type κ} (Q : Type 0) (m : Result A) (g : A → B)
    → ReturnsIff Q m
    → ReturnsIff Q (m >>= λ a. ok (g a))
ReturnsIff-map Q m g (inl (q, a, e)) = inl (q, g a, rw e)
ReturnsIff-map Q m g (inr (n, r)) = inr (n, Raises->>= IsValueError m (λ a. ok (g a)) r)

module _ (s : Solders) (c : Constants s.Pubkey) (finds : FindsAddresses s) where
  open s use {Pubkey}

  lock_returns :
      (params : LockCollateralParams Pubkey) (p : Pubkey)
      → ReturnsIff (IsEncodable (lock params)) (build_view_bond_ix s c params p)
  unfolding build_view_bond_ix
  lock_returns params p = elim (Bool-cases (in_range params.min_score 0xffff)) [
    | inr low ↦ inr (λ q. ground (arith, (in_range_iff params.min_score 0xffff).1 q.0), rw low tt)
    | inl low ↦ elim (Bool-cases (in_range params.min_bond_atomic u64_max)) [
      | inr high ↦ inr (
        λ q. ground (arith, (in_range_iff params.min_bond_atomic u64_max).1 q.1),
        rw (low, high) tt,
      )
      | inl high ↦
          let q = (in_range_iff params.min_score 0xffff).0 low in
          let q' = (in_range_iff params.min_bond_atomic u64_max).0 high in
          let (bs, e) = to_bytes-Fits 8 u64_max params.min_bond_atomic (omega arith) q' in
          let (cs, e') = to_bytes-Fits 2 0xffff params.min_score (omega arith) q in
          rw (low, high, e, e') (inl ((q, q'), _, refl))
    ]
  ]

  slash_returns :
      (params : SlashCollateralParams Pubkey) (action : ℤ) (p : Pubkey)
      → ReturnsIff (IsEncodable (slash params action)) (build_resolve_claim_ix s c params p action)
  unfolding build_resolve_claim_ix
  slash_returns params action p = elim (Bool-cases (in_range action 255)) [
    | inr out ↦ inr (λ q. ground (arith, (in_range_iff action 255).1 q), rw out tt)
    | inl fits ↦
        let (v, e) = pda_of_found s finds (bond_vault params.agent) p in
        let (d, e') = pda_of_found s finds (deposit_vault params.claim) p in
        let q = (in_range_iff action 255).0 fits in
        let (bs, b) = byte_returns action q in rw (fits, e, e', b) (inl (q, _, refl))
  ]

  -- If every program address is found, an instruction is built exactly for the calls whose numbers
  -- fit their fields, the one-byte keyword `action` of a claim included, and every other call
  -- raises a `ValueError`, never an `OverflowError`.
  pub build_returns :
      (call : Call Pubkey) (p : Pubkey) → ReturnsIff (IsEncodable call) (build_of s c call p)
  unfolding build_withdraw_bond_ix build_process_pool_yield_ix build_request_credit_ix
  build_returns (lock params) p = lock_returns params p
  build_returns (slash params action) p = slash_returns params action p
  build_returns (unlock params) p =
      let (v, e) = pda_of_found s finds (bond_vault params.agent) p in
      rw e (ReturnsIff-map _ (u64_le params.amount_atomic) _ (u64_le_returns params.amount_atomic))
  build_returns (pay params source) p =
      let (v, e) = pda_of_found s finds pool_config p in
      let (w, e') = pda_of_found s finds pool_vault p in
      rw (e, e')
        (ReturnsIff-map _ (u64_le params.amount_atomic) _ (u64_le_returns params.amount_atomic))
  build_returns (release params controller) p =
      let (v, e) = pda_of_found s finds (bond_vault params.agent) p in
      let (l, e1) = pda_of_found s finds (credit_line params.agent) p in
      let (o, e2) = pda_of_found s finds pool_config p in
      let (w, e3) = pda_of_found s finds pool_vault p in
      let (a, e4) = pda_of_found s finds pool_mint_auth p in
      rw (e, e1, e2, e3, e4)
        (ReturnsIff-map _ (u64_le params.amount_atomic) _ (u64_le_returns params.amount_atomic))
