-- ===== src/X402/Gate.antt =====
-- `apply_x402_gate` and `status_for_code` of x402.py. The header is `None` or a text; the profile
-- lookup is a parameter that may raise, and whose `None` is JSON's null.
use ars_solana.Prelude.{
  ℕ, String, ◌||◌, Option, none, some, ℤ, pos, ltb_ℤ, str_eq, str_int, ◌<+>◌, if◌then◌else◌,
  Exception, Result, ok, raise, ◌>>=◌, message, x402_parse_error,
}
use ars_solana.Json.{Json, null, int, string, object, end, truthy, or_default, get, to_int}
use ars_solana.X402.Transactions.{Decoders, decode_x_payment_header, extract_payer}

pub record GatePolicy : Type 0 where
  pub min_bond_atomic : ℤ
  pub min_score : ℤ

-- `GatePass`, `GateFail` and `GateUnusable`.
pub data GateResult : Type 0 where
  gate_pass : (payer : String) → (profile : Json) → GateResult
  gate_fail : (code : String) → (payer : Option String) → (text : String) → GateResult
  gate_unusable : (code : String) → (text : String) → GateResult

-- `except X402ParseError as e: return GateUnusable(e.code, str(e))`
abbrev pub catch_parse_error : Exception → Result GateResult
catch_parse_error (x402_parse_error code text) = ok (gate_unusable code text)
catch_parse_error e = raise e

module _ (d : Decoders) (policy : GatePolicy) where
  open d use {parse_int}

  -- `int(profile.get(key) or 0)`
  unfoldable pub number_of : Json → String → Result ℤ
  unfolding get
  number_of profile key = get profile key >>= λ v. to_int parse_int (or_default v (int (pos 0)))

  -- The comparison of the bond, and the pass.
  unfoldable pub check_bond : String → Json → ℤ → Result GateResult
  unfolding str_int
  check_bond payer profile bond_atomic =
      if ltb_ℤ bond_atomic policy.min_bond_atomic
      then ok (
          gate_fail "BOND_BELOW_MIN" (some payer) (
            "agent bond "
            <+> str_int bond_atomic
            <+> " < required "
            <+> str_int policy.min_bond_atomic))
      else ok (gate_pass payer profile)

  -- The comparison of the score.
  unfoldable pub check_score : String → Json → ℤ → Result GateResult
  unfolding str_int number_of check_bond
  check_score payer profile score =
      if ltb_ℤ score policy.min_score
      then ok (
          gate_fail "SCORE_BELOW_MIN" (some payer)
            ("agent score " <+> str_int score <+> " < required " <+> str_int policy.min_score))
      else (number_of profile "bond_atomic" >>= check_bond payer profile)

  -- The checks on a profile that is not `None`, in their order.
  unfoldable pub check_frozen : String → Json → Json → Result GateResult
  unfolding number_of check_score
  check_frozen payer profile frozen =
      if truthy frozen
      then ok (gate_fail "FROZEN" (some payer) "agent is frozen")
      else (number_of profile "score" >>= check_score payer profile)

  unfoldable pub check_profile : String → Json → Result GateResult
  unfolding get check_frozen
  check_profile payer null =
      ok (gate_fail "NOT_BONDED" (some payer) "agent has no Telaro registration")
  check_profile payer profile = get profile "frozen" >>= check_frozen payer profile

  module _ (lookup_profile : String → Result Json) where
    unfoldable pub check_payer : String → Result GateResult
    unfolding check_profile
    check_payer payer = elim (lookup_profile payer) [
      | raise e ↦
          ok (gate_fail "LOOKUP_FAILED" (some payer) ("profile lookup failed: " <+> message e))
      | ok profile ↦ check_profile payer profile
    ]

    -- From the serialized transaction on.
    unfoldable pub check_payment : Json → Result GateResult
    unfolding extract_payer check_payer
    check_payment (string serialized) = elim (extract_payer d serialized) [
      | raise e ↦ catch_parse_error e
      | ok payer ↦ check_payer payer
    ]
    check_payment v =
        ok (
          gate_unusable "MALFORMED_PAYMENT" "payload.serializedTransaction missing or not a string")

    -- From the decoded header on.
    unfoldable pub check_envelope : Json → Result GateResult
    unfolding get check_payment
    check_envelope envelope = do
      payload ← get envelope "payload"
      serialized ← get (or_default payload (object end)) "serializedTransaction"
      check_payment serialized

    unfoldable pub check_header : String → Result GateResult
    unfolding decode_x_payment_header check_envelope
    check_header header = elim (decode_x_payment_header d header) [
      | raise e ↦ catch_parse_error e
      | ok envelope ↦ check_envelope envelope
    ]

    unfoldable pub apply_x402_gate : Option String → Result GateResult
    unfolding check_header
    apply_x402_gate none = ok (gate_unusable "NO_PAYMENT" "x-payment header is missing")
    apply_x402_gate (some header) =
        if str_eq header ""
        then ok (gate_unusable "NO_PAYMENT" "x-payment header is missing")
        else check_header header

unfoldable pub status_for_code : String → ℕ
status_for_code code =
    if str_eq code "NO_PAYMENT"
      || str_eq code "MALFORMED_PAYMENT"
      || str_eq code "NO_TRANSFER"
      || str_eq code "UNSIGNED_PAYER"
    then 402
    else if str_eq code "LOOKUP_FAILED"
    then 502
    else 403
