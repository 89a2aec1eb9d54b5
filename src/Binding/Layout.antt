-- ===== src/Binding/Layout.antt =====
-- The two surfaces of binding.py against one another: an encoded instruction carries the method
-- and the arguments of its intent, and its bytes determine them.
use ars_solana.Prelude.{
  ℕ, ◌+◌, ◌^◌, ◌<◌, String, ◌≡◌, refl, sym, ap, ◌∙◌, Bool, true, false, Option, List, [], ◌∷◌, ◌++◌,
  map, take, drop, length, length-append, length-take, take-append, drop-append, ℤ, pos, Result, ok,
  from_bytes, little_endian, to_bytes, to_bytes-eq-ok, length-little_endian,
  from_bytes-little_endian, encode, ◌<+>◌, ◌>>◌, arith, ◌↔◌,
}
use mathlib.Core.Path.{subst, ap₂}
use mathlib.Core.List.{append-nil}
use ars_solana.Hashlib.{sha256, length-sha256}
use ars_solana.Solders.{Solders, Instruction}
use ars_solana.Pda.{Constants}
use ars_solana.Binding.Params.{
  LockCollateralParams, SlashCollateralParams, UnlockCollateralParams, PayPremiumParams,
  ReleasePrincipalParams,
}
use ars_solana.Binding.Intents.{
  InstructionIntent, lock_collateral_intent, slash_collateral_intent, unlock_collateral_intent,
  pay_premium_intent, release_principal_intent,
}
use ars_solana.Binding.Builders.{
  disc, require, u64_le, build_view_bond_ix, build_resolve_claim_ix, build_withdraw_bond_ix,
  build_process_pool_yield_ix, build_request_credit_ix,
}

-- One of the five settlement actions, with the optional keyword arguments of its builder.
pub data Call (P : Type 0) : Type 0 where
  lock : LockCollateralParams P → Call P
  slash : SlashCollateralParams P → (action : ℤ) → Call P
  unlock : UnlockCollateralParams P → Call P
  pay : PayPremiumParams P → Option P → Call P
  release : ReleasePrincipalParams P → Option P → Call P

abbrev pub intent_of : {P : Type 0} → Call P → P → InstructionIntent P
intent_of (lock params) p = lock_collateral_intent params p
intent_of (slash params action) p = slash_collateral_intent params p
intent_of (unlock params) p = unlock_collateral_intent params p
intent_of (pay params source) p = pay_premium_intent params p
intent_of (release params controller) p = release_principal_intent params p

-- How the program reads an instruction's arguments: unsigned little-endian fields.
abbrev pub fields : List ℕ → List ℕ → List ℕ
fields [] bytes = []
fields (w ∷ ws) bytes = from_bytes (take w bytes) ∷ fields ws (drop w bytes)

abbrev pub widths : {P : Type 0} → Call P → List ℕ
widths (lock params) = 8 ∷ 2 ∷ []
widths (slash params action) = 1 ∷ []
widths _ = 8 ∷ []

-- The numbers that a builder is given to encode.
abbrev pub arguments : {P : Type 0} → Call P → List ℤ
arguments (lock params) = params.min_bond_atomic ∷ params.min_score ∷ []
arguments (slash params action) = action ∷ []
arguments (unlock params) = params.amount_atomic ∷ []
arguments (pay params source) = params.amount_atomic ∷ []
arguments (release params controller) = params.amount_atomic ∷ []

-- The calls whose intent has the same numbers: an intent to slash fixes the action to 0.
abbrev pub IsIntended : {P : Type 0} → Call P → Type 0
IsIntended (slash params action) = action ≡ pos 0
IsIntended _ = Unit {0}

intent_args-IsIntended :
    {P : Type 0} (call : Call P) (p : P)
    → (arguments call ≡ map (λ a. a.1) (intent_of call p).args) ↔ IsIntended call
unfolding lock_collateral_intent slash_collateral_intent unlock_collateral_intent pay_premium_intent
    release_principal_intent
intent_args-IsIntended (lock params) p = (λ h. tt, λ h. refl)
intent_args-IsIntended (slash params action) p = (λ h. cc, λ h. ap (λ a. a ∷ []) h)
intent_args-IsIntended (unlock params) p = (λ h. tt, λ h. refl)
intent_args-IsIntended (pay params source) p = (λ h. tt, λ h. refl)
intent_args-IsIntended (release params controller) p = (λ h. tt, λ h. refl)

abbrev pub sum : List ℕ → ℕ
sum [] = 0
sum (w ∷ ws) = w + sum ws

pub field :
    (w k : ℕ) (ws rest : List ℕ)
    → k < 256 ^ w
    → fields (w ∷ ws) (little_endian w k ++ rest) ≡ k ∷ fields ws rest
field w k ws rest h =
    let n = length-little_endian w k in
    let bs = little_endian w k in
    let front : take w (bs ++ rest) ≡ bs =
      subst (λ m. take m (bs ++ rest) ≡ bs) n (take-append bs rest) in
    let back : drop w (bs ++ rest) ≡ rest =
      subst (λ m. drop m (bs ++ rest) ≡ rest) n (drop-append bs rest) in
    rw (front, back, from_bytes-little_endian w k h) refl

pub last_field : (w k : ℕ) → k < 256 ^ w → fields (w ∷ []) (little_endian w k) ≡ k ∷ []
last_field w k h = rw (← append-nil (little_endian w k)) (field w k [] [] h)

pub length-disc : (name : String) → length (disc name) ≡ 8
unfolding disc
length-disc name = omega (
  arith,
  length-take 8 (sha256 (encode ("global:" <+> name))),
  length-sha256 (encode ("global:" <+> name)),
)

pub after_require {ℓ} :
    {A : Type ℓ} {a : A} (test : Bool) (m : String) (k : Result A)
    → (require test m >> k) ≡ ok a
    → k ≡ ok a
after_require true m k h = h
after_require false m k h = cc

pub u64_le-eq-ok :
    (v : ℤ) (bs : List ℕ)
    → u64_le v ≡ ok bs
    → (k : ℕ) × (v ≡ pos k) × (k < 2 ^ 64) × (bs ≡ little_endian 8 k)
unfolding u64_le
u64_le-eq-ok v bs h = to_bytes-eq-ok 8 v bs (after_require _ _ (to_bytes 8 v) h)

pub tag : (name : String) (rest : List ℕ) → take 8 (disc name ++ rest) ≡ disc name
tag name rest =
    subst (λ n. take n (disc name ++ rest) ≡ disc name) (length-disc name)
      (take-append (disc name) rest)

pub payload : (name : String) (rest : List ℕ) → drop 8 (disc name ++ rest) ≡ rest
payload name rest =
    subst (λ n. drop n (disc name ++ rest) ≡ rest) (length-disc name) (drop-append (disc name) rest)

module _ (s : Solders) (c : Constants s.Pubkey) where
  open s use {Pubkey}

  abbrev pub build_of : Call Pubkey → Pubkey → Result (Instruction Pubkey)
  build_of (lock params) p = build_view_bond_ix s c params p
  build_of (slash params action) p = build_resolve_claim_ix s c params p action
  build_of (unlock params) p = build_withdraw_bond_ix s c params p
  build_of (pay params source) p = build_process_pool_yield_ix s c params p source
  build_of (release params controller) p = build_request_credit_ix s c params p controller

  -- The instruction carries the call's numbers under the intent's method; they are the intent's
  -- numbers where the call is intended, and nowhere else.
  pub record Carries (call : Call Pubkey) (p : Pubkey) (ix : Instruction Pubkey) : Type 0 where
    pub program : ix.program_id ≡ (intent_of call p).program_id
    pub tagged : take 8 ix.data_bytes ≡ disc (intent_of call p).method
    pub decoded : map pos (fields (widths call) (drop 8 ix.data_bytes)) ≡ arguments call
    pub agrees :
        (map pos (fields (widths call) (drop 8 ix.data_bytes))
          ≡ map (λ a. a.1) (intent_of call p).args)
        ↔ IsIntended call
    pub sized : length ix.data_bytes ≡ 8 + sum (widths call)

  -- The record from its first facts.
  pub carries :
      (call : Call Pubkey) (p : Pubkey) (ix : Instruction Pubkey)
      → ix.program_id ≡ (intent_of call p).program_id
      → take 8 ix.data_bytes ≡ disc (intent_of call p).method
      → map pos (fields (widths call) (drop 8 ix.data_bytes)) ≡ arguments call
      → length ix.data_bytes ≡ 8 + sum (widths call)
      → Carries call p ix
  carries call p ix program tagged decoded sized = record {
    program = program;
    tagged = tagged;
    decoded = decoded;
    agrees = (
      λ h. (intent_args-IsIntended call p).0 (sym decoded ∙ h),
      λ h. decoded ∙ (intent_args-IsIntended call p).1 h,
    );
    sized = sized;
  }

  -- An instruction whose data are a tag and one amount, against a call with that amount.
  pub Carries-amount :
      (call : Call Pubkey) (p : Pubkey) (ix : Instruction Pubkey) (bs : List ℕ) (v : ℤ)
      → u64_le v ≡ ok bs
      → widths call ≡ 8 ∷ []
      → arguments call ≡ v ∷ []
      → ix.program_id ≡ (intent_of call p).program_id
      → ix.data_bytes ≡ disc (intent_of call p).method ++ bs
      → Carries call p ix
  Carries-amount call p ix bs v encoded w args program shape =
      let name : String = (intent_of call p).method in
      let (k, same, lt, q) = u64_le-eq-ok v bs encoded in
      carries call p ix program (ap (take 8) shape ∙ tag name bs)
        (ap₂ (λ (ws : List ℕ) (l : List ℕ). map pos (fields ws (drop 8 l))) w shape
          ∙ ap (λ (l : List ℕ). map pos (fields (8 ∷ []) l)) (payload name bs ∙ q)
          ∙ ap (map pos) (last_field 8 k lt)
          ∙ ap (λ z. z ∷ []) (sym same)
          ∙ sym args)
        (ap length shape
          ∙ length-append (disc name) bs
          ∙ omega (arith, length-disc name, ap length q, length-little_endian 8 k, ap sum w))
