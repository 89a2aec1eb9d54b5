-- ===== src/X402/Signers.antt =====
-- The signed accounts that x402.py reads off a payment transaction, legacy or versioned.
use ars_solana.Prelude.{
  ℕ, zero, suc, ◌-◌, ◌≤◌, ◌<◌, String, Bool, true, false, ◌≡◌, refl, sym, ap, ◌∙◌, ◌⊎◌, inl, inr,
  none, some, List, [], ◌∷◌, ◌++◌, length, take, drop, get_elem?, lt→ltb, le→leb, lt→leb,
  Bool-cases, if◌then◌else◌, ok, raise, index_error, ◌>>=◌, arith,
}
use mathlib.Core.Path.{ap₂}
use native.Mathlib.Decide.{dec_lt}
use mathlib.Core.List.{append-nil, append_assoc}
use ars_solana.X402.Transactions.{
  is_signed, signed_at, has_signed, legacy_signers, versioned_signers, versioned_round, key_at,
}

-- The accounts that must sign and whose signature is not blank, in the order of the keys: the
-- keys and the signatures side by side, up to the number of required signatures.
abbrev pub signed_keys : ℕ → List String → List (List ℕ) → List String
signed_keys zero keys sigs = []
signed_keys (suc n) [] sigs = []
signed_keys (suc n) (key ∷ keys) [] = []
signed_keys (suc n) (key ∷ keys) (sig ∷ sigs) =
    let rest = signed_keys n keys sigs in if is_signed sig then key ∷ rest else rest

signed_keys-nil : (n : ℕ) (keys : List String) → signed_keys n keys [] ≡ []
signed_keys-nil zero keys = refl
signed_keys-nil (suc n) [] = refl
signed_keys-nil (suc n) (key ∷ keys) = refl

signed_keys-nil_keys : (n : ℕ) (sigs : List (List ℕ)) → signed_keys n [] sigs ≡ []
signed_keys-nil_keys zero sigs = refl
signed_keys-nil_keys (suc n) sigs = refl

-- The element at an index, as the head of what is left from there.
abbrev Splits {ℓ} : {A : Type ℓ} → ℕ → List A → Type ℓ
Splits {A} i xs =
    ((drop i xs ≡ []) × (drop (suc i) xs ≡ []) × (get_elem? xs i ≡ none) × (length xs ≤ i))
    ⊎ ((x : A) × (drop i xs ≡ x ∷ drop (suc i) xs) × (get_elem? xs i ≡ some x) × (i < length xs))

splits {ℓ} : {A : Type ℓ} (i : ℕ) (xs : List A) → Splits i xs
splits zero [] = inl (refl, refl, refl, omega arith)
splits (suc i) [] = inl (refl, refl, refl, omega arith)
splits zero (x ∷ xs) = inr (x, refl, refl, omega arith)
splits (suc i) (x ∷ xs) = elim (splits i xs) [
  | inl (a, b, c, d) ↦ inl (a, b, c, omega arith)
  | inr (y, a, b, c) ↦ inr (y, a, b, omega arith)
]

has_signed_off : (i : ℕ) (sigs : List (List ℕ)) → length sigs ≤ i → has_signed i sigs ≡ false
unfolding has_signed
has_signed_off i sigs h = ground arith

has_signed_on :
    (i : ℕ) (sigs : List (List ℕ)) (sig : List ℕ)
    → get_elem? sigs i ≡ some sig
    → i < length sigs
    → has_signed i sigs ≡ is_signed sig
unfolding has_signed
has_signed_on i sigs sig e h = rw (lt→ltb i (length sigs) h) (ap signed_at e)

legacy_round :
    (i : ℕ) (key : String) (keys : List String) (sigs : List (List ℕ)) (signed : List String)
    (b : Bool)
    → has_signed i sigs ≡ b
    → legacy_signers i (key ∷ keys) sigs signed
      ≡ legacy_signers (suc i) keys sigs (if b then signed ++ key ∷ [] else signed)
unfolding legacy_signers
legacy_round i key keys sigs signed b e =
    ap (λ (t : Bool). legacy_signers (suc i) keys sigs (if t then signed ++ key ∷ [] else signed)) e

take_key :
    (b : Bool) (key : String) (signed rest : List String)
    → (if b then signed ++ key ∷ [] else signed) ++ rest
      ≡ signed ++ (if b then key ∷ rest else rest)
take_key true key signed rest = append_assoc signed (key ∷ []) rest
take_key false key signed rest = refl

-- The legacy loop collects the signed keys.
pub legacy_signers_lem :
    (n i : ℕ) (keys : List String) (sigs : List (List ℕ)) (signed : List String)
    → legacy_signers i (take n keys) sigs signed ≡ signed ++ signed_keys n keys (drop i sigs)
legacy_signers_lem zero i keys sigs signed = unfold legacy_signers in sym (append-nil signed)
legacy_signers_lem (suc n) i [] sigs signed = unfold legacy_signers in sym (append-nil signed)
legacy_signers_lem (suc n) i (key ∷ keys) sigs signed = elim (splits i sigs) [
  | inl (gone, after, absent, long) ↦
      legacy_round i key (take n keys) sigs signed false (has_signed_off i sigs long)
      ∙ legacy_signers_lem n (suc i) keys sigs signed
      ∙ ap (λ (l : List (List ℕ)). signed ++ signed_keys n keys l) after
      ∙ ap (λ l. signed ++ l) (signed_keys-nil n keys)
      ∙ ap (λ (l : List (List ℕ)). signed ++ signed_keys (suc n) (key ∷ keys) l) (sym gone)
  | inr (sig, here, found, short) ↦
      legacy_round i key (take n keys) sigs signed (is_signed sig)
        (has_signed_on i sigs sig found short)
      ∙ legacy_signers_lem n (suc i) keys sigs _
      ∙ take_key (is_signed sig) key signed _
      ∙ ap (λ (l : List (List ℕ)). signed ++ signed_keys (suc n) (key ∷ keys) l) (sym here)
]

key_at_lem :
    (keys : List String) (i : ℕ)
    → ((key : String) × (get_elem? keys i ≡ some key) × (key_at keys i ≡ ok key))
      ⊎ ((get_elem? keys i ≡ none)
          × (key_at keys i ≡ raise (index_error "list index out of range")))
key_at_lem [] i = inr (refl, refl)
key_at_lem (key ∷ keys) zero = inl (key, refl, refl)
key_at_lem (key ∷ keys) (suc i) = key_at_lem keys i

key_at-some :
    (keys : List String) (i : ℕ) (key : String)
    → get_elem? keys i ≡ some key
    → key_at keys i ≡ ok key
key_at-some keys i key e = elim (key_at_lem keys i) [
  | inl (k, found, at) ↦ at ∙ ap ok (cc)
  | inr (absent, out) ↦ cc
]

versioned_round_on :
    (i : ℕ) (sig : List ℕ) (keys signed : List String) {key : String}
    → key_at keys i ≡ ok key
    → versioned_round i sig keys signed ≡ ok (if is_signed sig then signed ++ key ∷ [] else signed)
versioned_round_on i sig keys signed e = elim (Bool-cases (is_signed sig)) [
  | inl y ↦ rw (y, e) refl
  | inr y ↦ rw y refl
]

-- What is left of the required signatures at an index, over the keys from there on.
abbrev left_keys : ℕ → ℕ → List String → List (List ℕ) → List String
left_keys n i keys sigs = signed_keys (n - i) (drop i keys) sigs

left_keys_stop :
    (n i : ℕ) (keys : List String) (sigs : List (List ℕ)) → n ≤ i → left_keys n i keys sigs ≡ []
left_keys_stop n i keys sigs h = rw (sub_zero n i h) refl
  where
    sub_zero : (a b : ℕ) → a ≤ b → a - b ≡ 0
    sub_zero a b h = omega arith

left_keys_step :
    (n i : ℕ) (key : String) (keys : List String) (sig : List ℕ) (sigs : List (List ℕ))
    → i < n
    → drop i keys ≡ key ∷ drop (suc i) keys
    → left_keys n i keys (sig ∷ sigs)
      ≡ (let rest = left_keys n (suc i) keys sigs in if is_signed sig then key ∷ rest else rest)
left_keys_step n i key keys sig sigs h e =
    ap₂ (λ (m : ℕ) (l : List String). signed_keys m l (sig ∷ sigs)) (sub_suc n i h) e
  where
    sub_suc : (a b : ℕ) → b < a → a - b ≡ suc (a - suc b)
    sub_suc a b h = omega arith

left_keys_gone :
    (n i : ℕ) (keys : List String) (sigs : List (List ℕ))
    → drop i keys ≡ []
    → left_keys n i keys sigs ≡ []
left_keys_gone n i keys sigs e =
    ap (λ (l : List String). signed_keys (n - i) l sigs) e ∙ signed_keys-nil_keys (n - i) sigs

versioned_stop :
    (i n : ℕ) (sigs : List (List ℕ)) (keys signed : List String)
    → n ≤ i
    → versioned_signers i sigs n keys signed ≡ ok signed
unfolding versioned_signers
versioned_stop i n [] keys signed h = refl
versioned_stop i n (sig ∷ sigs) keys signed h = rw (le→leb n i h) refl

versioned_step :
    (i n : ℕ) (sig : List ℕ) (sigs : List (List ℕ)) (keys signed : List String)
    → i < n
    → versioned_signers i (sig ∷ sigs) n keys signed
      ≡ (versioned_round i sig keys signed >>= λ next. versioned_signers (suc i) sigs n keys next)
unfolding versioned_signers
versioned_step i n sig sigs keys signed h = rw (lt→leb n i h) refl

-- The versioned loop collects the signed keys too, if the keys reach as far as the signatures.
pub versioned_complete :
    (sigs : List (List ℕ)) (i n : ℕ) (keys signed : List String)
    → n ≤ length keys
    → versioned_signers i sigs n keys signed ≡ ok (signed ++ left_keys n i keys sigs)
versioned_complete [] i n keys signed h =
    unfold versioned_signers in
    ap ok (
      sym (append-nil signed) ∙ ap (λ l. signed ++ l) (sym (signed_keys-nil (n - i) (drop i keys))))
versioned_complete (sig ∷ sigs) i n keys signed h = elim (dec_lt i n) [
  | no p ↦
      versioned_stop i n (sig ∷ sigs) keys signed (omega arith)
      ∙ ap ok (
          sym (append-nil signed)
          ∙ ap (λ l. signed ++ l) (sym (left_keys_stop n i keys (sig ∷ sigs) (omega arith))))
  | yes p ↦ elim (splits i keys) [
    | inl (a, b, c, long) ↦ absurd (omega arith)
    | inr (key, here, found, short) ↦
        versioned_step i n sig sigs keys signed p
        ∙ ap (λ r. r >>= λ next. versioned_signers (suc i) sigs n keys next)
            (versioned_round_on i sig keys signed (key_at-some keys i key found))
        ∙ versioned_complete sigs (suc i) n keys _ h
        ∙ ap ok (take_key (is_signed sig) key signed _)
        ∙ ap (λ l. ok (signed ++ l)) (sym (left_keys_step n i key keys sig sigs p here))
  ]
]
