-- ===== src/X402/Transactions.antt =====
-- `_decode_x_payment_header`, `_try_parse_tx` and `extract_payer` of x402.py. The decoders of the
-- standard library and of `solders` are parameters: whatever bytes they accept, the model holds.
use ars_solana.Prelude.{
  ℕ, zero, suc, ℤ, String, Bool, true, false, not, ◌&&◌, Option, none, some, List, [], ◌∷◌, ◌++◌,
  length, take, replicate, get_elem?, ltb, leb, ◌==◌, ◌<+>◌, if◌then◌else◌, Result, ok, raise,
  ◌>>=◌, message, x402_parse_error, index_error,
}
use ars_solana.Json.{Json}

-- What the gate reads of a `solders` transaction: the signatures, and of its message the account
-- keys as `str(key)`, the header's `num_required_signatures`, and the instructions.
pub record Tx (I : Type 0) : Type 0 where
  pub signatures : List (List ℕ)
  pub account_keys : List String
  pub num_required_signatures : ℕ
  pub instructions : List I

-- `base64.b64decode`, `bytes.decode("utf-8")`, `json.loads`, `int(str)`, `Transaction.from_bytes`
-- and `VersionedTransaction.from_bytes`.
pub record Decoders : Type 1 where
  pub CompiledInstruction : Type 0
  pub b64decode : String → Result (List ℕ)
  pub decode_utf8 : List ℕ → Result String
  pub loads : String → Result Json
  pub parse_int : String → Result ℤ
  pub transaction_from_bytes : List ℕ → Result (Tx CompiledInstruction)
  pub versioned_from_bytes : List ℕ → Result (Tx CompiledInstruction)

-- `_ParsedTx`
pub record ParsedTx (I : Type 0) : Type 0 where
  pub instructions : List I
  pub signed_accounts : List String

abbrev pub bytes_eq : List ℕ → List ℕ → Bool
bytes_eq [] [] = true
bytes_eq (a ∷ more) (b ∷ bs) = a == b && bytes_eq more bs
bytes_eq _ _ = false

-- `bytes(sig) != b"\x00" * 64`
unfoldable pub is_signed : List ℕ → Bool
is_signed sig = not (bytes_eq sig (replicate 64 0))

abbrev pub signed_at : Option (List ℕ) → Bool
signed_at none = false
signed_at (some sig) = is_signed sig

-- `i < len(sigs) and bytes(sigs[i]) != b"\x00" * 64`
unfoldable pub has_signed : ℕ → List (List ℕ) → Bool
unfolding is_signed
has_signed i sigs = ltb i (length sigs) && signed_at (get_elem? sigs i)

-- The loop over the account keys of a legacy transaction, from the index `i` on.
unfoldable pub legacy_signers : ℕ → List String → List (List ℕ) → List String → List String
unfolding has_signed
legacy_signers i [] sigs signed = signed
legacy_signers i (key ∷ keys) sigs signed =
    legacy_signers (suc i) keys sigs (if has_signed i sigs then signed ++ key ∷ [] else signed)

-- `keys[i]`
abbrev pub key_at : List String → ℕ → Result String
key_at [] i = raise (index_error "list index out of range")
key_at (key ∷ keys) zero = ok key
key_at (key ∷ keys) (suc i) = key_at keys i

-- One round of the loop over the signatures of a versioned transaction.
abbrev pub versioned_round : ℕ → List ℕ → List String → List String → Result (List String)
versioned_round i sig keys signed =
    if is_signed sig then (key_at keys i >>= λ key. ok (signed ++ key ∷ [])) else ok signed

unfoldable pub versioned_signers :
    ℕ → List (List ℕ) → ℕ → List String → List String → Result (List String)
unfolding is_signed
versioned_signers i [] required keys signed = ok signed
versioned_signers i (sig ∷ sigs) required keys signed =
    let rest = versioned_round i sig keys signed >>= λ next.
    versioned_signers (suc i) sigs required keys next in
    if leb required i then ok signed else rest

module _ (d : Decoders) where
  open d use {
    CompiledInstruction, b64decode, decode_utf8, loads, transaction_from_bytes,
    versioned_from_bytes,
  }

  abbrev pub malformed {ℓ} : {A : Type ℓ} → String → Result A
  malformed text = raise (x402_parse_error "MALFORMED_PAYMENT" text)

  unfoldable pub decode_x_payment_header : String → Result Json
  decode_x_payment_header header_value =
      elim (b64decode header_value >>= λ raw. decode_utf8 raw >>= λ decoded. loads decoded) [
        | ok value ↦ ok value
        | raise e ↦ malformed ("x-payment header is not base64-encoded JSON: " <+> message e)
      ]

  abbrev pub parse_legacy : Tx CompiledInstruction → ParsedTx CompiledInstruction
  parse_legacy tx = record {
    instructions = tx.instructions;
    signed_accounts =
        legacy_signers 0 (take tx.num_required_signatures tx.account_keys) tx.signatures [];
  }

  abbrev pub parse_versioned : Tx CompiledInstruction → Result (ParsedTx CompiledInstruction)
  parse_versioned tx = do
    signed ← versioned_signers 0 tx.signatures tx.num_required_signatures tx.account_keys []
    ok (record { instructions = tx.instructions; signed_accounts = signed })

  -- The legacy form first, then the versioned one; an exception of the latter is `None`.
  unfoldable pub try_parse_tx : List ℕ → Option (ParsedTx CompiledInstruction)
  unfolding legacy_signers versioned_signers
  try_parse_tx raw = elim (transaction_from_bytes raw) [
    | ok tx ↦ some (parse_legacy tx)
    | raise _ ↦ elim (versioned_from_bytes raw >>= parse_versioned) [
      | ok parsed ↦ some parsed
      | raise _ ↦ none
    ]
  ]

  -- `for sa in parsed.signed_accounts: return sa`, and the `raise` behind it.
  abbrev pub first_signer : List String → Result String
  first_signer (account ∷ accounts) = ok account
  first_signer [] =
      raise (x402_parse_error "NO_TRANSFER" "no signed SPL transfer found in the payment payload")

  abbrev pub payer_of : Option (ParsedTx CompiledInstruction) → Result String
  payer_of none = malformed "payment payload is not a deserializable Solana transaction"
  payer_of (some parsed) = elim parsed.signed_accounts [
    | [] ↦ raise (x402_parse_error "UNSIGNED_PAYER" "no signer present in the payment transaction")
    | account ∷ accounts ↦ first_signer (account ∷ accounts)
  ]

  unfoldable pub extract_payer : String → Result String
  unfolding try_parse_tx
  extract_payer serialized_tx_b64 = elim (b64decode serialized_tx_b64) [
    | raise e ↦ malformed ("payload not base64: " <+> message e)
    | ok raw ↦ payer_of (try_parse_tx raw)
  ]
