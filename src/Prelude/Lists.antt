-- ===== src/Prelude/Lists.antt =====
-- Lists measured by native numbers, under the library's names, and a predicate on every element.
use Prim.Native.Nat.{ℕ, zero, suc, ◌+◌, min}
use mathlib.Core.Path.{◌≡◌, refl, ap, subst}
use mathlib.Core.Logic.{◌≢◌}
use mathlib.Core.Logic.Or
use mathlib.Core.HLevel.{⊥_prop}
use mathlib.Core.List.{
  List, [], ◌∷◌, ◌++◌, Mem, Nodup, Nodup-nil, Nodup-cons, Nodup-append, not-mem-nil, mem-cons,
}
use mathlib.Core.Option.{Option, none, some}
use mathlib.Core.Bool.{Bool, true, ◌&&◌}
use native.Mathlib.Omega.{arith}

module _ {ℓ} {A : Type ℓ} where
  abbrev pub length : List A → ℕ
  length [] = 0
  length (x ∷ xs) = suc (length xs)

  abbrev pub get_elem? : List A → ℕ → Option A
  get_elem? [] i = none
  get_elem? (x ∷ xs) zero = some x
  get_elem? (x ∷ xs) (suc i) = get_elem? xs i

  abbrev pub take : ℕ → List A → List A
  take zero xs = []
  take (suc n) [] = []
  take (suc n) (x ∷ xs) = x ∷ take n xs

  abbrev pub drop : ℕ → List A → List A
  drop zero xs = xs
  drop (suc n) [] = []
  drop (suc n) (x ∷ xs) = drop n xs

  abbrev pub replicate : ℕ → A → List A
  replicate zero a = []
  replicate (suc n) a = a ∷ replicate n a

  abbrev pub All {κ} : (A → Type κ) → List A → Type κ
  All P [] = Unit {κ}
  All P (x ∷ xs) = P x × All P xs

  -- Does a test hold of every element?
  abbrev pub all : (A → Bool) → List A → Bool
  all p [] = true
  all p (x ∷ xs) = p x && all p xs

  pub length-append : (xs ys : List A) → length (xs ++ ys) ≡ length xs + length ys
  length-append [] ys = omega arith
  length-append (x ∷ xs) ys = omega (arith, length-append xs ys)

module _ {ℓ} {A : Type ℓ} where
  pub All-append {κ} :
      (Holds : A → Type κ) (front back : List A)
      → All Holds front
      → All Holds back
      → All Holds (front ++ back)
  All-append Holds [] back none_before rest = rest
  All-append Holds (x ∷ front) back (first, before) rest =
      (first, All-append Holds front back before rest)

  pub take-append : (xs ys : List A) → take (length xs) (xs ++ ys) ≡ xs
  take-append [] ys = refl
  take-append (x ∷ xs) ys = ap (λ t. x ∷ t) (take-append xs ys)

  pub drop-append : (xs ys : List A) → drop (length xs) (xs ++ ys) ≡ ys
  drop-append [] ys = refl
  drop-append (x ∷ xs) ys = drop-append xs ys

  pub length-take : (n : ℕ) (xs : List A) → length (take n xs) ≡ min n (length xs)
  length-take zero xs = omega arith
  length-take (suc n) [] = omega arith
  length-take (suc n) (x ∷ xs) = omega (arith, length-take n xs)

pub All-map {ℓ κ κ'} :
    {A : Type ℓ} {P : A → Type κ} {Q : A → Type κ'} (xs : List A)
    → ((x : A) → P x → Q x)
    → All P xs
    → All Q xs
All-map [] f h = tt
All-map (x ∷ xs) f (p, ps) = (f x p, All-map xs f ps)

pub Nodup-append_last {ℓ} :
    {A : Type ℓ} (xs : List A) (x : A) → Nodup xs → ¬ Mem x xs → Nodup (xs ++ x ∷ [])
Nodup-append_last xs x n fresh = Nodup-append.1 (
  n,
  Nodup-cons.1 (not-mem-nil, Nodup-nil),
  λ a m last. Or.elim ⊥_prop (mem-cons.0 last) (λ e. fresh (rw (← e) m)) not-mem-nil,
)

not_inside {ℓ} : {A : Type ℓ} (x : A) (xs ys : List A) → ¬ All (λ y. y ≢ x) (xs ++ x ∷ ys)
not_inside x [] ys = λ (n, ns). n refl
not_inside x (y ∷ xs) ys = λ (n, ns). not_inside x xs ys ns

-- A list splits in one way at the last place of an element.
pub split_last {ℓ} :
    {A : Type ℓ} (x : A) (xs xs' ys ys' : List A)
    → All (λ y. y ≢ x) ys
    → All (λ y. y ≢ x) ys'
    → xs ++ x ∷ ys ≡ xs' ++ x ∷ ys'
    → (xs ≡ xs') × (ys ≡ ys')
split_last x [] [] ys ys' n n' h = (refl, cc)
split_last x [] (y ∷ xs') ys ys' n n' h =
    absurd (not_inside x xs' ys' (subst (All (λ y. y ≢ x)) (cc) n))
split_last x (y ∷ xs) [] ys ys' n n' h =
    absurd (not_inside x xs ys (subst (All (λ y. y ≢ x)) (cc) n'))
split_last x (y ∷ xs) (y' ∷ xs') ys ys' n n' h =
    let (front, back) = split_last x xs xs' ys ys' n n' (cc) in (cc, back)
