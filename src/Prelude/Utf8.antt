-- ===== src/Prelude/Utf8.antt =====
-- Lemmas on `str.encode("utf-8")`, by the ranges of the first byte of a character.
use Prim.Native.Nat.{ℕ}
use Prim.Native.Char.{code}
use Prim.Native.String.{String}
use mathlib.Core.Path.{◌≡◌, refl, ap₂, sym}
use mathlib.Core.List.{List, [], ◌++◌}
use native.Mathlib.Omega.{arith}
use text.Mathlib.TextEquality.{Char-path}
use ars_solana.Prelude.Text.{utf8_char, encode}

utf8_char-split :
    (c d : ℕ) (xs ys : List ℕ) → utf8_char c ++ xs ≡ utf8_char d ++ ys → (c ≡ d) × (xs ≡ ys)
utf8_char-split c d xs ys h = (ground arith, ground arith)

utf8_char_filled : (c : ℕ) (xs : List ℕ) → ¬ (utf8_char c ++ xs ≡ [])
utf8_char_filled c xs = λ h. ground arith

pub encode-injective : (s t : String) → encode s ≡ encode t → s ≡ t
unfolding encode
encode-injective String.[] String.[] h = refl
encode-injective String.[] (String.◌∷◌ d t) h =
    absurd (utf8_char_filled (code d) (encode t) (sym h))
encode-injective (String.◌∷◌ c s) String.[] h = absurd (utf8_char_filled (code c) (encode s) h)
encode-injective (String.◌∷◌ c s) (String.◌∷◌ d t) h =
    let (first, rest) = utf8_char-split (code c) (code d) (encode s) (encode t) h in
    ap₂ String.◌∷◌ (Char-path c d first) (encode-injective s t rest)
