-- ===== src/Hashlib.antt =====
-- Python's `hashlib.sha256`, which the program calls: SHA-256 of FIPS 180-4 on lists of bytes, with
-- 32-bit words as numbers that wrap. It runs, so that discriminators can be compared with the
-- published test vectors.
use Prim.Native.Nat.{bit_and, bit_xor}
use ars_solana.Prelude.{
  ℕ, zero, suc, ◌+◌, ◌-◌, ◌*◌, ◌/◌, ◌%◌, ◌^◌, ◌≡◌, refl, List, [], ◌∷◌, ◌++◌, length, take, drop,
  replicate, All, IsByte, hex, encode, arith,
}

abbrev u32 : ℕ → ℕ
u32 n = n % 2 ^ 32

-- The eight working variables, and the hash value.
record Words : Type 0 where
  a : ℕ
  b : ℕ
  c : ℕ
  d : ℕ
  e : ℕ
  f : ℕ
  g : ℕ
  h : ℕ

rotr : ℕ → ℕ → ℕ
rotr n x = x / 2 ^ n + x % 2 ^ n * 2 ^ (32 - n)

xor3 : ℕ → ℕ → ℕ → ℕ
xor3 x y z = bit_xor x (bit_xor y z)

ch : ℕ → ℕ → ℕ → ℕ
ch x y z = bit_xor (bit_and x y) (bit_and (2 ^ 32 - 1 - x) z)

maj : ℕ → ℕ → ℕ → ℕ
maj x y z = xor3 (bit_and x y) (bit_and x z) (bit_and y z)

big_sigma0 : ℕ → ℕ
big_sigma0 x = xor3 (rotr 2 x) (rotr 13 x) (rotr 22 x)

big_sigma1 : ℕ → ℕ
big_sigma1 x = xor3 (rotr 6 x) (rotr 11 x) (rotr 25 x)

small_sigma0 : ℕ → ℕ
small_sigma0 x = xor3 (rotr 7 x) (rotr 18 x) (x / 2 ^ 3)

small_sigma1 : ℕ → ℕ
small_sigma1 x = xor3 (rotr 17 x) (rotr 19 x) (x / 2 ^ 10)

constants : List ℕ
constants =
    0x428a2f98 ∷ 0x71374491 ∷ 0xb5c0fbcf ∷ 0xe9b5dba5 ∷ 0x3956c25b ∷ 0x59f111f1 ∷ 0x923f82a4
    ∷ 0xab1c5ed5 ∷ 0xd807aa98 ∷ 0x12835b01 ∷ 0x243185be ∷ 0x550c7dc3 ∷ 0x72be5d74 ∷ 0x80deb1fe
    ∷ 0x9bdc06a7 ∷ 0xc19bf174 ∷ 0xe49b69c1 ∷ 0xefbe4786 ∷ 0x0fc19dc6 ∷ 0x240ca1cc ∷ 0x2de92c6f
    ∷ 0x4a7484aa ∷ 0x5cb0a9dc ∷ 0x76f988da ∷ 0x983e5152 ∷ 0xa831c66d ∷ 0xb00327c8 ∷ 0xbf597fc7
    ∷ 0xc6e00bf3 ∷ 0xd5a79147 ∷ 0x06ca6351 ∷ 0x14292967 ∷ 0x27b70a85 ∷ 0x2e1b2138 ∷ 0x4d2c6dfc
    ∷ 0x53380d13 ∷ 0x650a7354 ∷ 0x766a0abb ∷ 0x81c2c92e ∷ 0x92722c85 ∷ 0xa2bfe8a1 ∷ 0xa81a664b
    ∷ 0xc24b8b70 ∷ 0xc76c51a3 ∷ 0xd192e819 ∷ 0xd6990624 ∷ 0xf40e3585 ∷ 0x106aa070 ∷ 0x19a4c116
    ∷ 0x1e376c08 ∷ 0x2748774c ∷ 0x34b0bcb5 ∷ 0x391c0cb3 ∷ 0x4ed8aa4a ∷ 0x5b9cca4f ∷ 0x682e6ff3
    ∷ 0x748f82ee ∷ 0x78a5636f ∷ 0x84c87814 ∷ 0x8cc70208 ∷ 0x90befffa ∷ 0xa4506ceb ∷ 0xbef9a3f7
    ∷ 0xc67178f2 ∷ []

initial : Words
initial = record {
  a = 0x6a09e667;
  b = 0xbb67ae85;
  c = 0x3c6ef372;
  d = 0xa54ff53a;
  e = 0x510e527f;
  f = 0x9b05688c;
  g = 0x1f83d9ab;
  h = 0x5be0cd19;
}

-- One round, with the round's constant and message word.
round : Words → ℕ → ℕ → Words
round s k w =
    let t1 = s.h + big_sigma1 s.e + ch s.e s.f s.g + k + w in
    let t2 = big_sigma0 s.a + maj s.a s.b s.c in
    record {
      a = u32 (t1 + t2);
      b = s.a;
      c = s.b;
      d = s.c;
      e = u32 (s.d + t1);
      f = s.e;
      g = s.f;
      h = s.g;
    }

word_at : List ℕ → ℕ → ℕ
word_at [] i = 0
word_at (x ∷ xs) zero = x
word_at (x ∷ xs) (suc i) = word_at xs i

-- The message schedule as a window of sixteen words, moved on by one.
slide : List ℕ → List ℕ
slide w =
    drop 1 w
    ++ u32 (small_sigma1 (word_at w 14) + word_at w 9 + small_sigma0 (word_at w 1) + word_at w 0)
      ∷ []

rounds : List ℕ → List ℕ → Words → Words
rounds [] w s = s
rounds (k ∷ ks) w s = rounds ks (slide w) (round s k (word_at w 0))

add_words : Words → Words → Words
add_words s t = record {
  a = u32 (s.a + t.a);
  b = u32 (s.b + t.b);
  c = u32 (s.c + t.c);
  d = u32 (s.d + t.d);
  e = u32 (s.e + t.e);
  f = u32 (s.f + t.f);
  g = u32 (s.g + t.g);
  h = u32 (s.h + t.h);
}

-- Big-endian words of a block.
words_of : List ℕ → List ℕ
words_of (p ∷ q ∷ r ∷ s ∷ rest) = (p * 2 ^ 24 + q * 2 ^ 16 + r * 2 ^ 8 + s) ∷ words_of rest
words_of _ = []

block : Words → List ℕ → Words
block s bytes = add_words s (rounds constants (words_of bytes) s)

-- The blocks of 64 bytes, one after the other; the fuel bounds how many.
blocks : ℕ → List ℕ → Words → Words
blocks zero bytes s = s
blocks (suc fuel) [] s = s
blocks (suc fuel) (x ∷ bytes) s = blocks fuel (drop 64 (x ∷ bytes)) (block s (take 64 (x ∷ bytes)))

abbrev word_bytes : ℕ → List ℕ
word_bytes w = w / 2 ^ 24 % 256 ∷ w / 2 ^ 16 % 256 ∷ w / 2 ^ 8 % 256 ∷ w % 256 ∷ []

-- A one bit, zeros up to the last eight bytes of a block, and the length in bits.
padded : List ℕ → List ℕ
padded m =
    let n = length m in
    m
    ++ 0x80 ∷ replicate ((119 - n % 64) % 64) 0
    ++ word_bytes (8 * n / 2 ^ 32)
    ++ word_bytes (8 * n)

digest_bytes : Words → List ℕ
digest_bytes s =
    word_bytes s.a
    ++ word_bytes s.b
    ++ word_bytes s.c
    ++ word_bytes s.d
    ++ word_bytes s.e
    ++ word_bytes s.f
    ++ word_bytes s.g
    ++ word_bytes s.h

-- `hashlib.sha256(m).digest()`; a padded message has at most `length m / 64 + 2` blocks.
unfoldable pub sha256 : List ℕ → List ℕ
unfolding rotr xor3 ch maj big_sigma0 big_sigma1 small_sigma0 small_sigma1 constants initial round
    word_at slide rounds add_words words_of block blocks padded digest_bytes
sha256 m = digest_bytes (blocks (length m / 64 + 2) (padded m) initial)

-- `hashlib.sha256(m).hexdigest()`, as bytes of the text.
unfoldable pub hexdigest : List ℕ → List ℕ
unfolding sha256 hex
hexdigest m = hex (sha256 m)

length-digest_bytes : (s : Words) → length (digest_bytes s) ≡ 32
unfolding digest_bytes
length-digest_bytes s = refl

digest_bytes-IsByte : (s : Words) → All IsByte (digest_bytes s)
unfolding digest_bytes
digest_bytes-IsByte s = omega arith

pub length-sha256 : (m : List ℕ) → length (sha256 m) ≡ 32
unfolding sha256
length-sha256 m = length-digest_bytes (blocks (length m / 64 + 2) (padded m) initial)

pub sha256-IsByte : (m : List ℕ) → All IsByte (sha256 m)
unfolding sha256
sha256-IsByte m = digest_bytes-IsByte (blocks (length m / 64 + 2) (padded m) initial)

-- FIPS 180-4, the message "abc".
hexdigest_abc :
    hexdigest (b'a' ∷ b'b' ∷ b'c' ∷ [])
    ≡ encode "ba7816bf8f01cfea414140de5dae2223b00361a396177a9cb410ff61f20015ad"
unfolding hexdigest encode
hexdigest_abc = refl
