-- ===== src/Prelude/Entries.antt =====
-- JavaScript's `Map` from texts: its entries in the order in which their keys were first set.
use Prim.Native.String.{String}
use mathlib.Core.Path.{◌≡◌, refl, ap}
use mathlib.Core.Logic.{inl, inr}
use mathlib.Core.Logic.Or
use mathlib.Core.HLevel.{⊥_prop}
use mathlib.Core.Option.{Option, none, some}
use mathlib.Core.List.{List, [], ◌∷◌, ◌++◌, map, Mem, mem-cons, not-mem-nil}
use native.Mathlib.Omega.{arith}
use text.Mathlib.TextEquality.{eq_iff}
use ars_solana.Prelude.Tests.{if◌then◌else◌, Bool-cases}
use ars_solana.Prelude.Lists.{All}
use ars_solana.Prelude.Text.{str_eq}

module _ {ℓ} {V : Type ℓ} where
  -- `m.get(k)`, where a missing key is `undefined`.
  unfoldable pub get : String → List (String × V) → Option V
  get k [] = none
  get k ((j, v) ∷ m) = if str_eq j k then some v else get k m

  -- `m.set(k, v)`: a key that is there keeps its place, a new one goes to the end.
  unfoldable pub set : String → V → List (String × V) → List (String × V)
  set k v [] = (k, v) ∷ []
  set k v ((j, w) ∷ m) = if str_eq j k then (j, v) ∷ m else (j, w) ∷ set k v m

  -- `m.keys()`
  abbrev pub keys : List (String × V) → List String
  keys m = map (λ (k, v). k) m

  pub get-set :
      (k j : String) (v : V) (m : List (String × V))
      → get j (set k v m) ≡ (if str_eq k j then some v else get j m)
  unfolding get set
  get-set k j v [] = refl
  get-set k j v ((i, w) ∷ m) = ground (arith, eq_iff i k, eq_iff i j, eq_iff k j, get-set k j v m)

  -- Setting a key that is missing appends it, and any other leaves the keys as they are.
  pub keys-set_new :
      (k : String) (v : V) (m : List (String × V))
      → get k m ≡ none
      → keys (set k v m) ≡ keys m ++ k ∷ []
  unfolding get set
  keys-set_new k v [] h = refl
  keys-set_new k v ((j, w) ∷ m) h = elim (Bool-cases (str_eq j k)) [
    | inl p ↦ cc (rw p at h)
    | inr p ↦ rw p (ap (λ ks. j ∷ ks) (keys-set_new k v m (rw p at h)))
  ]

  pub keys-set_old :
      (k : String) (v w : V) (m : List (String × V)) → get k m ≡ some w → keys (set k v m) ≡ keys m
  unfolding get set
  keys-set_old k v w [] h = cc
  keys-set_old k v w ((j, u) ∷ m) h = elim (Bool-cases (str_eq j k)) [
    | inl p ↦ rw p
    | inr p ↦ rw p (ap (λ ks. j ∷ ks) (keys-set_old k v w m (rw p at h)))
  ]

  -- A fact about each entry, after a key is set.
  pub All-set {κ} :
      (P : String → V → Type κ) (k : String) (v : V) (m : List (String × V))
      → P k v
      → All (λ (j, w). P j w) m
      → All (λ (j, w). P j w) (set k v m)
  unfolding set
  All-set P k v [] p h = (p, tt)
  All-set P k v ((j, w) ∷ m) p (q, h) = elim (Bool-cases (str_eq j k)) [
    | inl e ↦ rw e (rw (← (eq_iff j k).0 e) at p, h)
    | inr e ↦ rw e (q, All-set P k v m p h)
  ]

  pub All-get {κ} :
      (P : String → V → Type κ) (k : String) (v : V) (m : List (String × V))
      → All (λ (j, w). P j w) m
      → get k m ≡ some v
      → P k v
  unfolding get
  All-get P k v [] h g = cc
  All-get P k v ((j, w) ∷ m) (q, h) g = elim (Bool-cases (str_eq j k)) [
    | inl e ↦ let same : w ≡ v = cc (rw e at g) in rw (← (eq_iff j k).0 e, ← same) q
    | inr e ↦ All-get P k v m h (rw e at g)
  ]

  pub get-none_not_mem : (k : String) (m : List (String × V)) → get k m ≡ none → ¬ Mem k (keys m)
  unfolding get
  get-none_not_mem k [] h = not-mem-nil
  get-none_not_mem k ((j, w) ∷ m) h = λ i. elim (Bool-cases (str_eq j k)) [
    | inl p ↦ cc (rw p at h)
    | inr p ↦
        Or.elim ⊥_prop (mem-cons.0 i) (λ e. ground (arith, eq_iff j k))
          (get-none_not_mem k m (rw p at h))
  ]
