-- ===== src/X402/Payer.antt =====
-- Whom x402.py takes for the payer of a payment transaction.
use ars_solana.Prelude.{
  Exception, ℕ, zero, suc, ◌-◌, ◌≤◌, ◌<◌, ◌↔◌, String, true, false, ◌≡◌, refl, sym, ap, ◌∙◌, ◌⊎◌,
  inl, inr, some, List, [], ◌∷◌, length, get_elem?, Bool-cases, ok, raise, ok-injective, ◌>>=◌,
  arith,
}
use ars_solana.X402.Transactions.{
  Tx, Decoders, is_signed, signed_at, parse_legacy, parse_versioned, try_parse_tx, payer_of,
  extract_payer,
}
use ars_solana.X402.Signers.{signed_keys, legacy_signers_lem, versioned_complete}

-- The key is the first one that must sign and whose signature is there and not blank.
abbrev IsFirst : ℕ → List String → List (List ℕ) → String → Type 0
IsFirst n keys sigs key =
    (k : ℕ) × (k < n)
    × (get_elem? keys k ≡ some key)
    × (signed_at (get_elem? sigs k) ≡ true)
    × ((j : ℕ) → j < k → signed_at (get_elem? sigs j) ≡ false)

same_head : {a b : String} {xs ys : List String} → a ∷ xs ≡ b ∷ ys → a ≡ b
same_head h = cc

IsFirst-next :
    (n : ℕ) (key p : String) (keys : List String) (sig : List ℕ) (sigs : List (List ℕ))
    → is_signed sig ≡ false
    → IsFirst n keys sigs p
    → IsFirst (suc n) (key ∷ keys) (sig ∷ sigs) p
IsFirst-next n key p keys sig sigs blank (k, lt, at, on, before) =
    (suc k, omega arith, at, on, earlier)
  where
    earlier : (j : ℕ) → j < suc k → signed_at (get_elem? (sig ∷ sigs) j) ≡ false
    earlier zero h = blank
    earlier (suc j) h = before j (omega arith)

IsFirst-found :
    (n : ℕ) (keys : List String) (sigs : List (List ℕ)) (p : String) (rest : List String)
    → signed_keys n keys sigs ≡ p ∷ rest
    → IsFirst n keys sigs p
IsFirst-found zero keys sigs p rest e = cc
IsFirst-found (suc n) [] sigs p rest e = cc
IsFirst-found (suc n) (key ∷ keys) [] p rest e = cc
IsFirst-found (suc n) (key ∷ keys) (sig ∷ sigs) p rest e = elim (Bool-cases (is_signed sig)) [
  | inl y ↦
      let e' = rw y at e in (0, omega arith, ap some (same_head e'), y, λ j h. absurd (omega arith))
  | inr y ↦
      let e' = rw y at e in
      IsFirst-next n key p keys sig sigs y (IsFirst-found n keys sigs p rest e')
]

first_of :
    (n : ℕ) (keys : List String) (sigs : List (List ℕ)) (p : String)
    → IsFirst n keys sigs p
    → (rest : List String) × (signed_keys n keys sigs ≡ p ∷ rest)
first_of zero keys sigs p (k, lt, at, on, before) = absurd (omega arith)
first_of (suc n) [] sigs p (k, lt, at, on, before) = cc
first_of (suc n) (key ∷ keys) [] p (k, lt, at, on, before) = cc
first_of (suc n) (key ∷ keys) (sig ∷ sigs) p (zero, lt, at, on, before) =
    (signed_keys n keys sigs, rw on (ap (λ (a : String). a ∷ signed_keys n keys sigs) (some_eq at)))
  where
    some_eq : {a b : String} → some a ≡ some b → a ≡ b
    some_eq h = cc
first_of (suc n) (key ∷ keys) (sig ∷ sigs) p (suc k, lt, at, on, before) =
    let off = before 0 (omega arith) in
    let (rest, e) =
      first_of n keys sigs p (k, omega arith, at, on, λ j h. before (suc j) (omega arith)) in
    (rest, rw off e)

-- What the gate takes for the payer: the first key of a transaction that must sign and did.
abbrev pub IsFirstSigner : {I : Type 0} → Tx I → String → Type 0
IsFirstSigner tx key = IsFirst tx.num_required_signatures tx.account_keys tx.signatures key

module _ (d : Decoders) where
  open d use {CompiledInstruction, b64decode, transaction_from_bytes, versioned_from_bytes}

  -- The transaction that the bytes hold: a legacy one, or else a versioned one.
  abbrev pub Reads : List ℕ → Tx CompiledInstruction → Type 0
  Reads raw tx =
      (transaction_from_bytes raw ≡ ok tx)
      ⊎ ((e : Exception) × (transaction_from_bytes raw ≡ raise e)
          × (versioned_from_bytes raw ≡ ok tx))

  -- The keys that a transaction's header asks signatures of are among its keys.
  abbrev pub HasSigners : Tx CompiledInstruction → Type 0
  HasSigners tx = tx.num_required_signatures ≤ length tx.account_keys

  legacy_signed :
      (tx : Tx CompiledInstruction)
      → (parse_legacy d tx).signed_accounts
        ≡ signed_keys tx.num_required_signatures tx.account_keys tx.signatures
  legacy_signed tx =
      legacy_signers_lem tx.num_required_signatures 0 tx.account_keys tx.signatures []

  -- Where the header asks for no more signatures than there are keys, reading a transaction as a
  -- versioned one succeeds, and gives the signed accounts that reading it as a legacy one gives.
  pub parse_versioned-eq-parse_legacy :
      (tx : Tx CompiledInstruction) → HasSigners tx → parse_versioned d tx ≡ ok (parse_legacy d tx)
  parse_versioned-eq-parse_legacy tx h =
      ap
        (λ r.
          r >>= λ signed. ok (record { instructions = tx.instructions; signed_accounts = signed }))
        (versioned_complete tx.signatures 0 tx.num_required_signatures tx.account_keys [] h
          ∙ ap (λ (m : ℕ). ok (signed_keys m tx.account_keys tx.signatures))
              (minus_zero tx.num_required_signatures)
          ∙ ap ok (sym (legacy_signed tx)))
    where
      minus_zero : (n : ℕ) → n - 0 ≡ n
      minus_zero n = omega arith

  Reads-parsed :
      (raw : List ℕ) (tx : Tx CompiledInstruction)
      → Reads raw tx
      → HasSigners tx
      → try_parse_tx d raw ≡ some (parse_legacy d tx)
  unfolding try_parse_tx
  Reads-parsed raw tx (inl e) h = rw (try_parse_tx, e) refl
  Reads-parsed raw tx (inr (x, e, e')) h =
      rw (try_parse_tx, e, e', parse_versioned-eq-parse_legacy tx h) refl

  payer_iff :
      (tx : Tx CompiledInstruction) (p : String)
      → (payer_of d (some (parse_legacy d tx)) ≡ ok p) ↔ IsFirstSigner tx p
  payer_iff tx p =
      rw (legacy_signed tx)
        (payer_first (signed_keys tx.num_required_signatures tx.account_keys tx.signatures) refl)
    where
      payer_first :
          (l : List String)
          → l ≡ signed_keys tx.num_required_signatures tx.account_keys tx.signatures
          → (payer_of d (some (record { instructions = tx.instructions; signed_accounts = l }))
              ≡ ok p)
            ↔ IsFirstSigner tx p
      payer_first [] e = (λ h. cc, λ f. let (rest, e') = first_of _ _ _ p f in cc)
      payer_first (account ∷ accounts) e = (
        λ h. IsFirst-found _ _ _ p accounts (sym e ∙ ap (λ a. a ∷ accounts) (ok-injective h)),
        λ f. let (rest, e') = first_of _ _ _ p f in ap ok (same_head (e ∙ e')),
      )

  -- Of a payload that is base64 of a transaction whose header asks for no more signatures than
  -- there are keys, the payer is exactly the first key that must sign and whose signature is there
  -- and not blank; nothing else of the transaction is looked at.
  pub extract_payer_iff :
      (serialized : String) (raw : List ℕ) (tx : Tx CompiledInstruction) (p : String)
      → b64decode serialized ≡ ok raw
      → Reads raw tx
      → HasSigners tx
      → (extract_payer d serialized ≡ ok p) ↔ IsFirstSigner tx p
  unfolding extract_payer
  extract_payer_iff serialized raw tx p e reads h =
      rw (extract_payer, e, Reads-parsed raw tx reads h) (payer_iff tx p)
