-- ===== src/X402/Tests.antt =====
-- Requests run through the gate of x402.py with small decoders, and its theorems at them.
use ars_solana.Prelude.{
  ◌≡◌, refl, ◌↔◌, ◌<+>◌, inl, inr, ℕ, String, Option, none, some, List, [], ◌∷◌, replicate, pos,
  str_eq, ◌==◌, Result, ok, raise, ok-injective, Bool-cases, value_error, if◌then◌else◌, encode,
  Raises, arith,
}
use ars_solana.Json.{Json, Fields, null, int, string, object, array, nil, end, field, lookup, get}
use ars_solana.X402.Transactions.{
  Tx, Decoders, decode_x_payment_header, extract_payer, parse_versioned, parse_legacy,
}
use ars_solana.X402.Gate.{
  GatePolicy, GateResult, gate_pass, gate_fail, gate_unusable, number_of, apply_x402_gate,
  check_payer,
}
use ars_solana.X402.Payer.{IsFirstSigner, parse_versioned-eq-parse_legacy, extract_payer_iff}
use ars_solana.X402.Policy.{Meets}
use ars_solana.X402.Hosted.{Serves, hosted_pass_iff}
use ars_solana.X402.Passes.{Presents, gate_pass_iff}
use ars_solana.X402.Codes.{Outcome, gate_outcome}
use ars_solana.X402.Escapes.{
  IsAttributeError, IsProfile, IsShaped, gate-IsAttributeError, gate_returns,
}
use ars_solana.X402.Lookup.{HttpGet, lookup_url, http_lookup, Answers, http_lookup-Answers}

abbrev a_signature : List ℕ
a_signature = replicate 64 1

abbrev blank : List ℕ
blank = replicate 64 0

-- Two signers are required, and the first has not signed.
abbrev half_signed : Tx (List ℕ)
half_signed = record {
  signatures = blank ∷ a_signature ∷ [];
  account_keys = "fee" ∷ "ann" ∷ "mint" ∷ [];
  num_required_signatures = 2;
  instructions = (1 ∷ []) ∷ [];
}

abbrev unsigned : Tx (List ℕ)
unsigned = record half_signed { signatures = blank ∷ blank ∷ [] }

abbrev envelope_of : Json → Json
envelope_of payload = object (field "payload" payload end)

-- The texts of these decoders are names of what they decode to.
abbrev named_bytes : String → Result (List ℕ)
named_bytes t = if str_eq t "%" then raise (value_error "Incorrect padding") else ok (encode t)

abbrev named_json : String → Result Json
named_json t =
    if str_eq t "good"
    then ok (envelope_of (object (field "serializedTransaction" (string "tx") end)))
    else if str_eq t "blank"
    then ok (envelope_of (object (field "serializedTransaction" (string "no") end)))
    else if str_eq t "list"
    then ok (array nil)
    else raise (value_error "Expecting value")

abbrev text_of : List ℕ → Result String
text_of [] = ok ""
text_of (c ∷ more) =
    if c == b'g'
    then ok "good"
    else if c == b'b'
    then ok "blank"
    else if c == b'l'
    then ok "list"
    else raise (value_error "invalid start byte")

abbrev named_tx : List ℕ → Result (Tx (List ℕ))
named_tx [] = raise (value_error "io error")
named_tx (c ∷ more) =
    if c == b't'
    then ok half_signed
    else if c == b'n'
    then ok unsigned
    else raise (value_error "io error")

abbrev decoders : Decoders
decoders = record {
  CompiledInstruction = List ℕ;
  b64decode = named_bytes;
  decode_utf8 = text_of;
  loads = named_json;
  parse_int = λ t. raise (value_error "invalid literal for int()");
  transaction_from_bytes = λ raw. raise (value_error "legacy");
  versioned_from_bytes = named_tx;
}

abbrev policy : GatePolicy
policy = record { min_bond_atomic = pos 1_000; min_score = pos 700 }

abbrev profile_fields : ℕ → ℕ → Fields
profile_fields score bond =
    field "score" (int (pos score)) (field "bond_atomic" (int (pos bond)) end)

abbrev profiles : ℕ → ℕ → String → Result Json
profiles score bond payer =
    if str_eq payer "ann"
    then ok (object (profile_fields score bond))
    else raise (value_error "down")

run : ℕ → ℕ → Option String → Result GateResult
unfolding apply_x402_gate
run score bond header = apply_x402_gate decoders policy (profiles score bond) header

run_good : run 700 1_000 (some "good") ≡ ok (gate_pass "ann" (object (profile_fields 700 1_000)))
unfolding run encode
run_good = refl

run_poor :
    run 700 999 (some "good")
    ≡ ok (gate_fail "BOND_BELOW_MIN" (some "ann") "agent bond 999 < required 1000")
unfolding run encode
run_poor = refl

run_blank :
    run 700 999 (some "blank")
    ≡ ok (gate_unusable "UNSIGNED_PAYER" "no signer present in the payment transaction")
unfolding run encode
run_blank = refl

run-none : run 700 999 none ≡ ok (gate_unusable "NO_PAYMENT" "x-payment header is missing")
unfolding run
run-none = refl

parse_versioned-eq-parse_legacy_example :
    parse_versioned decoders half_signed ≡ ok (parse_legacy decoders half_signed)
parse_versioned-eq-parse_legacy_example =
    parse_versioned-eq-parse_legacy decoders half_signed (omega arith)

extract_payer_iff_example :
    (extract_payer decoders "tx" ≡ ok "ann") ↔ IsFirstSigner half_signed "ann"
unfolding encode
extract_payer_iff_example =
    extract_payer_iff decoders "tx" (encode "tx") half_signed "ann" refl
      (inr (value_error "legacy", refl, refl)) (omega arith)

gate_pass_iff_example :
    (apply_x402_gate decoders policy (profiles 700 1_000) (some "good")
      ≡ ok (gate_pass "ann" (object (profile_fields 700 1_000))))
    ↔ (Presents decoders (some "good") "ann"
        × (profiles 700 1_000 "ann" ≡ ok (object (profile_fields 700 1_000)))
        × Meets decoders policy (object (profile_fields 700 1_000)))
gate_pass_iff_example =
    gate_pass_iff decoders policy (profiles 700 1_000) (some "good") "ann"
      (object (profile_fields 700 1_000))

gate_outcome_example :
    Outcome decoders policy
      (profiles 700 999)
      (some "good")
      (apply_x402_gate decoders policy (profiles 700 999) (some "good"))
gate_outcome_example = gate_outcome decoders policy (profiles 700 999) (some "good")

list_decoded : decode_x_payment_header decoders "list" ≡ ok (array nil)
unfolding decode_x_payment_header encode
list_decoded = refl

gate-IsAttributeError_example :
    Raises IsAttributeError (apply_x402_gate decoders policy (profiles 700 999) (some "list"))
gate-IsAttributeError_example =
    gate-IsAttributeError decoders policy (profiles 700 999) "list" refl
      (array nil, list_decoded, inl (λ h. h))

profiles_shaped :
    (payer : String) (profile : Json)
    → profiles 700 999 payer ≡ ok profile
    → IsProfile decoders policy (profiles 700 999) profile
unfolding number_of get
profiles_shaped payer profile e = elim (Bool-cases (str_eq payer "ann")) [
  | inl y ↦
      let e' = ok-injective (rw y at e) in
      rw (← e') (inr (profile_fields 700 999, refl, (pos 700, refl), (pos 999, refl)))
  | inr n ↦ let e' = rw n at e in cc
]

good-IsShaped :
    (header : String)
    → some "good" ≡ some header
    → IsShaped decoders policy (profiles 700 999) header
unfolding decode_x_payment_header encode lookup
good-IsShaped header e envelope h =
    let h' = ok-injective (rw (← good) at h) in
    rw (← h') (field "payload" (object transaction_fields) end, refl, transaction_fields, refl)
  where
    good : "good" ≡ header
    good = cc

    transaction_fields : Fields
    transaction_fields = field "serializedTransaction" (string "tx") end

gate_returns_example :
    (answer : GateResult) × (apply_x402_gate decoders policy (profiles 700 999) (some "good")
      ≡ ok answer)
gate_returns_example =
    gate_returns decoders policy (profiles 700 999) (some "good") good-IsShaped profiles_shaped

abbrev not_found : HttpGet ℕ
not_found url timeout =
    ok (record { status_code = 404; raise_for_status = raise (value_error "404"); json = ok null })

http_lookup-Answers_example :
    Answers decoders policy not_found "ann"
      (not_found (lookup_url "https://api.telaro.xyz" "ann") 5)
      (check_payer decoders policy (http_lookup not_found "https://api.telaro.xyz" 5) "ann")
    × (http_lookup not_found ("https://api.telaro.xyz" <+> "/") 5 "ann"
        ≡ http_lookup not_found "https://api.telaro.xyz" 5 "ann")
http_lookup-Answers_example =
    http_lookup-Answers decoders policy not_found "https://api.telaro.xyz" 5 "ann"

-- An indexer that knows one agent.
abbrev serving : HttpGet ℕ
serving url timeout = ok (record {
  status_code = 200;
  raise_for_status = ok tt;
  json = ok (object (field "agent" (object (profile_fields 700 1_000)) end));
})

hosted_pass_iff_example :
    (apply_x402_gate decoders policy (http_lookup serving "https://api.telaro.xyz" 5) (some "good")
      ≡ ok (gate_pass "ann" (object (profile_fields 700 1_000))))
    ↔ (Presents decoders (some "good") "ann"
        × Serves serving "https://api.telaro.xyz" 5 "ann" (object (profile_fields 700 1_000))
        × Meets decoders policy (object (profile_fields 700 1_000)))
hosted_pass_iff_example =
    hosted_pass_iff serving "https://api.telaro.xyz" 5 decoders policy (some "good") "ann"
      (object (profile_fields 700 1_000))
