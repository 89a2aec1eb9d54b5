-- ===== src/Solders/Model.antt =====
-- A small model of the interface, to show that its laws can be met and to run the program: a key is
-- a number, its bytes are that number and zeros, and an address is the sum of the seeds' bytes.
use ars_solana.Prelude.{
  ℕ, ◌+◌, ◌*◌, ◌≡◌, refl, List, [], ◌∷◌, replicate, encode, from_bytes, ok, raise, value_error,
  str_eq, if◌then◌else◌,
}
use ars_solana.Solders.{Solders, FindsAddresses}

abbrev pub digest : List (List ℕ) → ℕ
digest [] = 7
digest (seed ∷ seeds) = let rest = digest seeds in from_bytes seed + 3 * rest

pub key_injective : (j k : ℕ) → ◌≡◌ {A = List ℕ} (j ∷ replicate 31 0) (k ∷ replicate 31 0) → j ≡ k
key_injective j k e = cc

abbrev pub solders : Solders
solders = record {
  Pubkey = ℕ;
  key_bytes = λ k. k ∷ replicate 31 0;
  from_string =
      λ t. if str_eq t "" then raise (value_error "WrongSize") else ok (from_bytes (encode t));
  program_address = λ seeds program. ok (digest seeds + program, 255);
  length-key_bytes = λ k. refl;
  key_bytes_injective = key_injective;
}

pub solders_find : FindsAddresses solders
solders_find seeds program h = (_, refl)
