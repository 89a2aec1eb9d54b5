-- ===== src/X402/Codes.antt =====
-- The codes of the gate of x402.py, and the HTTP statuses they stand for.
use ars_solana.Prelude.{
  ◌≡◌, refl, sym, ap, ◌∙◌, ◌⊎◌, inl, inr, String, false, Bool-cases, Option, none, some, str_eq,
  Exception, x402_parse_error, Result, ok, raise, raise-injective, Result-cases, ◌>>=◌, List, [],
  ◌∷◌,
}
use ars_solana.Json.{
  Json, Fields, null, boolean, int, float, string, array, object, end, lookup, get, or_default,
}
use ars_solana.X402.Transactions.{
  Decoders, ParsedTx, decode_x_payment_header, extract_payer, payer_of,
}
use ars_solana.X402.Gate.{
  GatePolicy, GateResult, gate_unusable, catch_parse_error, check_payer, check_payment,
  check_envelope, check_header, apply_x402_gate, status_for_code,
}
use ars_solana.X402.Judged.{Judged, payer-Judged}
use ars_solana.X402.Passes.{Presents}

-- The error is one of these two, with any text.
abbrev pub IsPaymentError : Exception → Type 0
IsPaymentError e =
    (code : String) × (text : String) × (e ≡ x402_parse_error code text)
    × ((code ≡ "MALFORMED_PAYMENT") ⊎ (code ≡ "UNSIGNED_PAYER"))

module _ (d : Decoders) where
  open d use {CompiledInstruction, b64decode}

  payer_of_error :
      (parsed : Option (ParsedTx CompiledInstruction)) (e : Exception)
      → payer_of d parsed ≡ raise e
      → IsPaymentError e
  payer_of_error none e h = (_, _, sym (raise-injective h), inl refl)
  payer_of_error (some parsed) e h = signers parsed.signed_accounts refl
    where
      signers : (l : List String) → parsed.signed_accounts ≡ l → IsPaymentError e
      signers [] q = let h' = rw q at h in (_, _, sym (raise-injective h'), inr refl)
      signers (account ∷ accounts) q = let h' = rw q at h in cc

  pub extract_payer_error :
      (serialized : String) (e : Exception)
      → extract_payer d serialized ≡ raise e
      → IsPaymentError e
  unfolding extract_payer
  extract_payer_error serialized e h = elim (Result-cases (b64decode serialized)) [
    | inl (raw, p) ↦ payer_of_error _ e (rw (extract_payer, p) at h)
    | inr (x, p) ↦ let h' = rw (extract_payer, p) at h in (_, _, sym (raise-injective h'), inl refl)
  ]

  pub decode_error :
      (header : String) (e : Exception)
      → decode_x_payment_header d header ≡ raise e
      → IsPaymentError e
  unfolding decode_x_payment_header
  decode_error header e h =
      elim (Result-cases
        (b64decode header >>= λ raw. d.decode_utf8 raw >>= λ decoded. d.loads decoded)) [
          | inl (v, p) ↦ let h' = rw (decode_x_payment_header, p) at h in cc
          | inr (x, p) ↦
              let h' = rw (decode_x_payment_header, p) at h in
              (_, _, sym (raise-injective h'), inl refl)
        ]

  module _ (policy : GatePolicy) (lookup_profile : String → Result Json) where
    -- The request is unusable, with one of these codes, or an `AttributeError` escaped.
    abbrev pub IsUnusable : Result GateResult → Type 0
    IsUnusable (ok (gate_unusable code text)) =
        ((code ≡ "NO_PAYMENT") ⊎ (code ≡ "MALFORMED_PAYMENT") ⊎ (code ≡ "UNSIGNED_PAYER"))
        × (status_for_code code ≡ 402)
    IsUnusable (ok r) = ⊥
    IsUnusable (raise (Exception.attribute_error text)) = Unit
    IsUnusable (raise e) = ⊥

    -- Either a payer is presented, and judged, or the request is unusable.
    abbrev pub Outcome : Option String → Result GateResult → Type 0
    Outcome x_payment_header r =
        ((payer : String) × Presents d x_payment_header payer
          × Judged d policy lookup_profile payer r)
        ⊎ IsUnusable r

    error-IsUnusable : (e : Exception) → IsPaymentError e → IsUnusable (catch_parse_error e)
    unfolding status_for_code
    error-IsUnusable e (code, text, is, inl c) = rw (is, c) (inr (inl refl), refl)
    error-IsUnusable e (code, text, is, inr c) = rw (is, c) (inr (inr refl), refl)

    -- From a serialized transaction on.
    payment_outcome :
        (v : Json)
        → ((serialized : String) × (payer : String) × (v ≡ string serialized)
            × (extract_payer d serialized ≡ ok payer)
            × (check_payment d policy lookup_profile v ≡ check_payer d policy lookup_profile payer))
          ⊎ IsUnusable (check_payment d policy lookup_profile v)
    unfolding check_payment status_for_code
    payment_outcome (string serialized) = elim (Result-cases (extract_payer d serialized)) [
      | inl (payer, e) ↦ inl (serialized, payer, refl, e, rw (check_payment, e) refl)
      | inr (x, e) ↦
          inr (rw (check_payment, e) (error-IsUnusable x (extract_payer_error serialized x e)))
    ]
    payment_outcome null = inr (inr (inl refl), refl)
    payment_outcome (boolean b) = inr (inr (inl refl), refl)
    payment_outcome (int n) = inr (inr (inl refl), refl)
    payment_outcome (float z t) = inr (inr (inl refl), refl)
    payment_outcome (array vs) = inr (inr (inl refl), refl)
    payment_outcome (object fs) = inr (inr (inl refl), refl)

    get_cases :
        (v : Json) (key : String)
        → ((fields : Fields) × (v ≡ object fields))
          ⊎ ((text : String) × (get v key ≡ raise (Exception.attribute_error text)))
    unfolding get
    get_cases (object fields) key = inl (fields, refl)
    get_cases null key = inr (_, refl)
    get_cases (boolean b) key = inr (_, refl)
    get_cases (int n) key = inr (_, refl)
    get_cases (float z t) key = inr (_, refl)
    get_cases (string t) key = inr (_, refl)
    get_cases (array vs) key = inr (_, refl)

    -- From an envelope on.
    envelope_outcome :
        (header : String) (v : Json)
        → str_eq header "" ≡ false
        → decode_x_payment_header d header ≡ ok v
        → Outcome (some header) (check_envelope d policy lookup_profile v)
    unfolding check_envelope get
    envelope_outcome header v full e = elim (get_cases v "payload") [
      | inr (text, bad) ↦ inr (rw bad tt)
      | inl (envelope, is) ↦
          elim (get_cases (or_default (lookup "payload" envelope) (object end))
            "serializedTransaction") [
              | inr (text, bad) ↦ inr (rw (is, bad) tt)
              | inl (payload, at) ↦
                  elim (payment_outcome (lookup "serializedTransaction" payload)) [
                    | inr early ↦ inr (rw (is, at) early)
                    | inl (serialized, payer, at', paid, go) ↦ inl (
                      payer,
                      (
                        header,
                        refl,
                        full,
                        envelope,
                        e ∙ ap ok is,
                        payload,
                        at,
                        serialized,
                        at',
                        paid,
                      ),
                      rw (is, at, go) (payer-Judged d policy lookup_profile payer),
                    )
                  ]
            ]
    ]

    header_outcome :
        (header : String)
        → str_eq header "" ≡ false
        → Outcome (some header) (check_header d policy lookup_profile header)
    unfolding check_header
    header_outcome header full = elim (Result-cases (decode_x_payment_header d header)) [
      | inl (v, e) ↦ rw (check_header, e) (envelope_outcome header v full e)
      | inr (x, e) ↦ rw (check_header, e) (inr (error-IsUnusable x (decode_error header x e)))
    ]

    -- Every call of the gate ends in one of two ways. Either the header presents a payer, and the
    -- payer passes, or fails by name with a code that has its cause, LOOKUP_FAILED (502) where the
    -- lookup raised and NOT_BONDED, FROZEN, SCORE_BELOW_MIN or BOND_BELOW_MIN (403) where the profile
    -- explains it, or an exception escapes on a profile that the lookup gave. Or the answer is
    -- unusable (402), with NO_PAYMENT, MALFORMED_PAYMENT or UNSIGNED_PAYER, or an `AttributeError`
    -- escapes.
    pub gate_outcome :
        (x_payment_header : Option String)
        → Outcome x_payment_header (apply_x402_gate d policy lookup_profile x_payment_header)
    unfolding apply_x402_gate status_for_code
    gate_outcome none = inr (inl refl, refl)
    gate_outcome (some header) = elim (Bool-cases (str_eq header "")) [
      | inl empty ↦ rw empty (inr (inl refl, refl))
      | inr full ↦ rw full (header_outcome header full)
    ]
