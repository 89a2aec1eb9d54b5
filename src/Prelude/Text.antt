-- ===== src/Prelude/Text.antt =====
-- Python's `str`: equality, concatenation, `str(int)`, `rstrip`, and the UTF-8 encoding.
use Prim.Native.Nat.{ℕ, zero, suc, ◌+◌, ◌/◌, ◌%◌}
use Prim.Native.Char.{code}
use Prim.Native.String
use Prim.Native.String.{String}
use mathlib.Core.Path.{◌≡◌, ap, sym, ◌∙◌}
use mathlib.Core.Bool.{Bool, ◌&&◌}
use mathlib.Core.List.{List, [], ◌∷◌, ◌++◌, append_assoc}
use text.Mathlib.Text.{◌==◌ as text_eq}
use text.Mathlib.TextLemmas.{nil-append, cons-append}
use ars_solana.Prelude.Tests.{ltb, ◌==◌, if◌then◌else◌}
use ars_solana.Prelude.Int.{ℤ, pos, negsuc}

abbrev pub str_eq : String → String → Bool
str_eq = text_eq

-- `s + t`, and the pieces of an f-string.
infixr 64 ◌<+>◌
abbrev pub ◌<+>◌ : String → String → String
s <+> t = String.◌++◌ s t

abbrev pub digit : ℕ → String
digit zero = "0"
digit (suc zero) = "1"
digit (suc (suc zero)) = "2"
digit (suc (suc (suc zero))) = "3"
digit (suc (suc (suc (suc zero)))) = "4"
digit (suc (suc (suc (suc (suc zero))))) = "5"
digit (suc (suc (suc (suc (suc (suc zero)))))) = "6"
digit (suc (suc (suc (suc (suc (suc (suc zero))))))) = "7"
digit (suc (suc (suc (suc (suc (suc (suc (suc zero)))))))) = "8"
digit _ = "9"

-- The decimal digits of a number; the fuel bounds how many.
unfoldable pub decimal : ℕ → ℕ → String
decimal zero n = ""
decimal (suc fuel) n =
    let front = decimal fuel (n / 10) in if ltb n 10 then digit n else front <+> digit (n % 10)

-- `str(n)` of an int that is not negative; `n + 1` digits are always enough.
unfoldable pub str_ℕ : ℕ → String
unfolding decimal
str_ℕ n = decimal (suc n) n

unfoldable pub str_int : ℤ → String
unfolding str_ℕ
str_int (pos n) = str_ℕ n
str_int (negsuc n) = "-" <+> str_ℕ (suc n)

abbrev pub hex_digit : ℕ → String
hex_digit n =
    if ltb n 10
    then digit n
    else if n == 10
    then "a"
    else if n == 11
    then "b"
    else if n == 12
    then "c"
    else if n == 13
    then "d"
    else if n == 14
    then "e"
    else "f"

-- `bs.hex()`
unfoldable pub hex_text : List ℕ → String
hex_text [] = ""
hex_text (b ∷ bs) = hex_digit (b / 16) <+> hex_digit (b % 16) <+> hex_text bs

-- `sep.join(parts)`
abbrev pub join : String → List String → String
join separator [] = ""
join separator (part ∷ []) = part
join separator (part ∷ next ∷ parts) = part <+> separator <+> join separator (next ∷ parts)

-- `s.rstrip(c)` for one character, given by its code point.
unfoldable pub rstrip : ℕ → String → String
rstrip c String.[] = ""
rstrip c (String.◌∷◌ d s) =
    let rest = rstrip c s in if str_eq rest "" && code d == c then "" else String.◌∷◌ d rest

-- `s.encode("utf-8")` of one code point.
abbrev pub utf8_char : ℕ → List ℕ
utf8_char c =
    if ltb c 0x80
    then c ∷ []
    else if ltb c 0x800
    then (0xc0 + c / 64) ∷ (0x80 + c % 64) ∷ []
    else if ltb c 0x10000
    then (0xe0 + c / 4096) ∷ (0x80 + c / 64 % 64) ∷ (0x80 + c % 64) ∷ []
    else (0xf0 + c / 262144) ∷ (0x80 + c / 4096 % 64) ∷ (0x80 + c / 64 % 64) ∷ (0x80 + c % 64) ∷ []

-- `s.encode("utf-8")`, and a bytes literal.
unfoldable pub encode : String → List ℕ
encode String.[] = []
encode (String.◌∷◌ c s) = utf8_char (code c) ++ encode s

pub encode-append : (s t : String) → encode (s <+> t) ≡ encode s ++ encode t
unfolding encode
encode-append String.[] t = ap encode (nil-append t)
encode-append (String.◌∷◌ c s) t =
    ap encode (cons-append c s t)
    ∙ ap (λ x. utf8_char (code c) ++ x) (encode-append s t)
    ∙ sym (append_assoc (utf8_char (code c)) (encode s) (encode t))
