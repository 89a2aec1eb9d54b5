-- ===== src/Prelude/Bytes.antt =====
-- Python's `bytes` as lists of numbers below 256: `int.to_bytes`, `int.from_bytes`, `bytes([n])`
-- and `bytes.hex`.
use Prim.Native.Nat.{ℕ, zero, suc, ◌+◌, ◌-◌, ◌*◌, ◌/◌, ◌%◌, ◌^◌, ◌<◌}
use mathlib.Core.Path.{◌≡◌, refl, ap}
use mathlib.Core.List.{List, [], ◌∷◌}
use native.Mathlib.Omega.{arith}
use ars_solana.Prelude.Tests.{ltb, lt→ltb, if◌then◌else◌}
use ars_solana.Prelude.Lists.{length, All}
use ars_solana.Prelude.Int.{ℤ, pos, negsuc}
use ars_solana.Prelude.Exceptions.{Result, ok, raise, overflow_error, value_error}

abbrev pub IsByte : ℕ → Type 0
IsByte b = b < 256

-- The low `n` bytes of a number, the lowest first.
unfoldable pub little_endian : ℕ → ℕ → List ℕ
little_endian zero v = []
little_endian (suc n) v = v % 256 ∷ little_endian n (v / 256)

-- `int.from_bytes(bs, "little")`
unfoldable pub from_bytes : List ℕ → ℕ
from_bytes [] = 0
from_bytes (b ∷ bs) = b + 256 * from_bytes bs

-- `v.to_bytes(n, "little")`
unfoldable pub to_bytes : ℕ → ℤ → Result (List ℕ)
unfolding little_endian
to_bytes n (pos v) =
    if ltb v (256 ^ n)
    then ok (little_endian n v)
    else raise (overflow_error "int too big to convert")
to_bytes n (negsuc v) = raise (overflow_error "can't convert negative int to unsigned")

-- `bytes([v])`
unfoldable pub bytes_of : ℤ → Result (List ℕ)
bytes_of (pos v) =
    if ltb v 256 then ok (v ∷ []) else raise (value_error "bytes must be in range(0, 256)")
bytes_of (negsuc v) = raise (value_error "bytes must be in range(0, 256)")

-- The lower-case hexadecimal digit, as a byte.
abbrev hex_digit : ℕ → ℕ
hex_digit n = if ltb n 10 then n + b'0' else n - 10 + b'a'

-- `bs.hex()`, as the bytes of the text.
unfoldable pub hex : List ℕ → List ℕ
hex [] = []
hex (b ∷ bs) = hex_digit (b / 16) ∷ hex_digit (b % 16) ∷ hex bs

pub length-little_endian : (n v : ℕ) → length (little_endian n v) ≡ n
unfolding little_endian
length-little_endian zero v = refl
length-little_endian (suc n) v = ap suc (length-little_endian n (v / 256))

pub little_endian-IsByte : (n v : ℕ) → All IsByte (little_endian n v)
unfolding little_endian
little_endian-IsByte zero v = tt
little_endian-IsByte (suc n) v = (omega arith, little_endian-IsByte n (v / 256))

pow_step : (n : ℕ) → 256 ^ suc n ≡ 256 * 256 ^ n
pow_step n = omega arith

pub from_bytes-little_endian : (n v : ℕ) → v < 256 ^ n → from_bytes (little_endian n v) ≡ v
unfolding from_bytes little_endian
from_bytes-little_endian zero v h = omega arith
from_bytes-little_endian (suc n) v h =
    omega (arith, pow_step n, from_bytes-little_endian n (v / 256) (omega (arith, pow_step n)))

-- `to_bytes` returns for the numbers that fit, and then the bytes stand for the number.
pub to_bytes-eq-ok :
    (n : ℕ) (v : ℤ) (bs : List ℕ)
    → to_bytes n v ≡ ok bs
    → (k : ℕ) × (v ≡ pos k) × (k < 256 ^ n) × (bs ≡ little_endian n k)
unfolding to_bytes
to_bytes-eq-ok n (pos k) bs h = (k, refl, ground arith, ground arith)
to_bytes-eq-ok n (negsuc k) bs h = cc

pub to_bytes_returns : (n k : ℕ) → k < 256 ^ n → to_bytes n (pos k) ≡ ok (little_endian n k)
unfolding to_bytes
to_bytes_returns n k h = rw (lt→ltb k (256 ^ n) h)
