-- ===== src/Prelude/Hex.antt =====
-- Lemmas on `bytes.hex()`.
use Prim.Native.Nat.{ℕ, zero, suc, ◌+◌, ◌-◌, ◌/◌, ◌%◌, ◌<◌}
use mathlib.Core.Path.{◌≡◌, refl, subst, ap, ap₂, sym, ◌∙◌}
use mathlib.Core.Logic.{inl, inr}
use mathlib.Core.List.{List, [], ◌∷◌, ◌++◌}
use native.Mathlib.Omega.{arith}
use ars_solana.Prelude.Tests.{ltb, ltb→lt, Bool-cases, if◌then◌else◌}
use ars_solana.Prelude.Lists.{All}
use ars_solana.Prelude.Text.{hex_digit, hex_text, encode, encode-append}
use ars_solana.Prelude.Bytes.{IsByte, hex}
use ars_solana.Prelude.Decimal.{encode-digit}

-- The digits from ten on.
encode-hex_letter : (k : ℕ) → k < 6 → encode (hex_digit (10 + k)) ≡ (b'a' + k) ∷ []
unfolding encode
encode-hex_letter zero h = refl
encode-hex_letter (suc zero) h = refl
encode-hex_letter (suc (suc zero)) h = refl
encode-hex_letter (suc (suc (suc zero))) h = refl
encode-hex_letter (suc (suc (suc (suc zero)))) h = refl
encode-hex_letter (suc (suc (suc (suc (suc zero))))) h = refl
encode-hex_letter (suc (suc (suc (suc (suc (suc k)))))) h = absurd (omega arith)

abbrev nibble : ℕ → ℕ
nibble n = if ltb n 10 then n + b'0' else n - 10 + b'a'

nibble_letter : (k : ℕ) → nibble (10 + k) ≡ b'a' + k
nibble_letter k = ground arith

encode-hex_digit : (n : ℕ) → n < 16 → encode (hex_digit n) ≡ nibble n ∷ []
encode-hex_digit n h = elim (Bool-cases (ltb n 10)) [
  | inl small ↦ rw small (encode-digit n (ltb→lt n 10 small) ∙ ap (λ (b : ℕ). b ∷ []) (omega arith))
  | inr big ↦
      let ten_more : 10 + (n - 10) ≡ n = ground arith in
      subst (λ (m : ℕ). encode (hex_digit m) ≡ nibble m ∷ []) ten_more
        (encode-hex_letter (n - 10) (omega arith)
          ∙ ap (λ (b : ℕ). b ∷ []) (sym (nibble_letter (n - 10))))
]

nibble-injective : (m n : ℕ) → m < 16 → n < 16 → nibble m ≡ nibble n → m ≡ n
nibble-injective m n h k e = ground arith

encode-hex_text : (bs : List ℕ) → All IsByte bs → encode (hex_text bs) ≡ hex bs
unfolding hex_text hex encode
encode-hex_text [] h = refl
encode-hex_text (b ∷ bs) (h, hs) =
    encode-append (hex_digit (b / 16)) _
    ∙ ap₂ ◌++◌ (encode-hex_digit (b / 16) (omega arith)) (
        encode-append (hex_digit (b % 16)) _
        ∙ ap₂ ◌++◌ (encode-hex_digit (b % 16) (omega arith)) (encode-hex_text bs hs))

hex-injective : (bs cs : List ℕ) → All IsByte bs → All IsByte cs → hex bs ≡ hex cs → bs ≡ cs
unfolding hex
hex-injective [] [] h k e = refl
hex-injective [] (c ∷ cs) h k e = cc
hex-injective (b ∷ bs) [] h k e = cc
hex-injective (b ∷ bs) (c ∷ cs) (h, hs) (k, ks) e =
    let high = nibble-injective (b / 16) (c / 16) (omega arith) (omega arith) (cc) in
    let low = nibble-injective (b % 16) (c % 16) (omega arith) (omega arith) (cc) in
    let rest = hex-injective bs cs hs ks (cc) in let same : b ≡ c = omega arith in cc

pub hex_text-injective :
    (bs cs : List ℕ) → All IsByte bs → All IsByte cs → hex_text bs ≡ hex_text cs → bs ≡ cs
hex_text-injective bs cs h k e =
    hex-injective bs cs h k (sym (encode-hex_text bs h) ∙ ap encode e ∙ encode-hex_text cs k)
