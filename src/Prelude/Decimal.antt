-- ===== src/Prelude/Decimal.antt =====
-- Lemmas on `str` of an int, as the bytes of its encoding.
use Prim.Native.Nat.{ℕ, zero, suc, ◌+◌, ◌-◌, ◌*◌, ◌/◌, ◌%◌, ◌≤◌, ◌<◌}
use mathlib.Core.Path.{◌≡◌, refl, ap, sym, ◌∙◌, subst}
use mathlib.Core.Logic.{inl, inr, ◌≢◌, ◌⊎◌}
use mathlib.Core.List.{List, [], ◌∷◌, ◌++◌}
use native.Mathlib.Omega.{arith}
use ars_solana.Prelude.Tests.{ltb, ltb→lt, Bool-cases}
use ars_solana.Prelude.Lists.{All, All-append, All-map}
use ars_solana.Prelude.Int.{ℤ, pos, negsuc}
use ars_solana.Prelude.Text.{digit, decimal, str_ℕ, str_int, encode, encode-append}

abbrev pub IsDigit : ℕ → Type 0
IsDigit b = (b'0' ≤ b) × (b ≤ b'9')

-- The number that digits stand for, after a number that was read before.
value_from : ℕ → List ℕ → ℕ
value_from n [] = n
value_from n (b ∷ bs) = value_from (10 * n + (b - b'0')) bs

value_from-append :
    (n : ℕ) (xs ys : List ℕ) → value_from n (xs ++ ys) ≡ value_from (value_from n xs) ys
unfolding value_from
value_from-append n [] ys = refl
value_from-append n (x ∷ xs) ys = value_from-append (10 * n + (x - b'0')) xs ys

pub encode-digit : (d : ℕ) → d < 10 → encode (digit d) ≡ (b'0' + d) ∷ []
unfolding encode
encode-digit zero h = refl
encode-digit (suc zero) h = refl
encode-digit (suc (suc zero)) h = refl
encode-digit (suc (suc (suc zero))) h = refl
encode-digit (suc (suc (suc (suc zero)))) h = refl
encode-digit (suc (suc (suc (suc (suc zero))))) h = refl
encode-digit (suc (suc (suc (suc (suc (suc zero)))))) h = refl
encode-digit (suc (suc (suc (suc (suc (suc (suc zero))))))) h = refl
encode-digit (suc (suc (suc (suc (suc (suc (suc (suc zero)))))))) h = refl
encode-digit (suc (suc (suc (suc (suc (suc (suc (suc (suc zero))))))))) h = refl
encode-digit (suc (suc (suc (suc (suc (suc (suc (suc (suc (suc n)))))))))) h = absurd (omega arith)

IsDigit-of_lt : (d : ℕ) → d < 10 → IsDigit (b'0' + d)
IsDigit-of_lt d h = (omega arith, omega arith)

-- With enough fuel, the digits stand for the number.
decimal_digits :
    (fuel n : ℕ)
    → n < fuel
    → All IsDigit (encode (decimal fuel n)) × (value_from 0 (encode (decimal fuel n)) ≡ n)
unfolding decimal value_from
decimal_digits zero n h = absurd (omega arith)
decimal_digits (suc fuel) n h = elim (Bool-cases (ltb n 10)) [
  | inl small ↦ rw small (
      rw (encode-digit n (ltb→lt n 10 small))
        ((IsDigit-of_lt n (ltb→lt n 10 small), tt), omega arith))
  | inr big ↦
      let (ds, v) = decimal_digits fuel (n / 10) (ground arith) in
      rw big (
        rw
          (
            encode-append (decimal fuel (n / 10)) (digit (n % 10)),
            encode-digit (n % 10) (omega arith),
            value_from-append 0 (encode (decimal fuel (n / 10))) ((b'0' + n % 10) ∷ []),
            v,
          )
          (
            All-append IsDigit _ ((b'0' + n % 10) ∷ []) ds
                (IsDigit-of_lt (n % 10) (omega arith), tt),
            omega arith,
          ))
]

str_ℕ_digits : (n : ℕ) → All IsDigit (encode (str_ℕ n)) × (value_from 0 (encode (str_ℕ n)) ≡ n)
unfolding str_ℕ
str_ℕ_digits n = decimal_digits (suc n) n (omega arith)

pub encode-str_ℕ-injective : (m n : ℕ) → encode (str_ℕ m) ≡ encode (str_ℕ n) → m ≡ n
encode-str_ℕ-injective m n h = sym (str_ℕ_digits m).1 ∙ ap (value_from 0) h ∙ (str_ℕ_digits n).1

-- The digits hold no byte that is not a digit.
pub str_ℕ-All_ne : (n b : ℕ) → (b < b'0') ⊎ (b'9' < b) → All (λ d. d ≢ b) (encode (str_ℕ n))
str_ℕ-All_ne n b h = All-map (encode (str_ℕ n)) (λ d (low, high) e. ground arith) (str_ℕ_digits n).0

encode-negative : (n : ℕ) → encode (str_int (negsuc n)) ≡ b'-' ∷ encode (str_ℕ (suc n))
unfolding str_int encode
encode-negative n = encode-append "-" (str_ℕ (suc n))

sign_is_no_digit : (ds : List ℕ) (n : ℕ) → ¬ (encode (str_ℕ n) ≡ b'-' ∷ ds)
sign_is_no_digit ds n =
    λ h. let ((low, high), rest) = subst (All IsDigit) h (str_ℕ_digits n).0 in absurd (omega arith)

pub encode-str_int-injective : (a b : ℤ) → encode (str_int a) ≡ encode (str_int b) → a ≡ b
unfolding str_int
encode-str_int-injective (pos m) (pos n) h = ap pos (encode-str_ℕ-injective m n h)
encode-str_int-injective (pos m) (negsuc n) h =
    absurd (sign_is_no_digit _ m (h ∙ encode-negative n))
encode-str_int-injective (negsuc m) (pos n) h =
    absurd (sign_is_no_digit _ n (sym h ∙ encode-negative m))
encode-str_int-injective (negsuc m) (negsuc n) h =
    let same : encode (str_ℕ (suc m)) ≡ encode (str_ℕ (suc n)) =
      cc (sym (encode-negative m) ∙ h ∙ encode-negative n) in
    let one_more : suc m ≡ suc n = encode-str_ℕ-injective (suc m) (suc n) same in
    ap negsuc (omega arith)

pub str_int-All_ne : (n : ℤ) (b : ℕ) → b'9' < b → All (λ d. d ≢ b) (encode (str_int n))
unfolding str_int
str_int-All_ne (pos n) b h = str_ℕ-All_ne n b (inr h)
str_int-All_ne (negsuc n) b h =
    rw (encode-negative n) (λ e. absurd (omega arith), str_ℕ-All_ne (suc n) b (inr h))
