-- ===== src/X402/Escapes.antt =====
-- When the gate of x402.py returns, and when an exception escapes it.
use ars_solana.Prelude.{
  ◌≡◌, refl, ◌⊎◌, inl, inr, String, false, Bool-cases, Option, some, none, ℤ, ltb_ℤ, str_eq,
  Exception, Result, ok, raise, attribute_error, Raises, Result-cases,
}
use ars_solana.Json.{
  Json, Fields, null, boolean, int, float, string, array, object, end, lookup, get, truthy,
  or_default, IsObject,
}
use ars_solana.X402.Transactions.{Decoders, decode_x_payment_header, extract_payer}
use ars_solana.X402.Gate.{
  GatePolicy, GateResult, catch_parse_error, number_of, check_bond, check_score, check_frozen,
  check_profile, check_payer, check_payment, check_envelope, check_header, apply_x402_gate,
}
use ars_solana.X402.Codes.{IsPaymentError, extract_payer_error, decode_error}

-- The exception is Python's `AttributeError`.
abbrev pub IsAttributeError : Exception → Type 0
IsAttributeError (attribute_error text) = Unit
IsAttributeError _ = ⊥

module _ (d : Decoders) (policy : GatePolicy) (lookup_profile : String → Result Json) where
  -- The header is a text whose decoded envelope is no dict, or has a payload that is no dict.
  abbrev pub IsIllShaped : String → Type 0
  IsIllShaped header =
      (envelope : Json) × (decode_x_payment_header d header ≡ ok envelope)
      × ((¬ IsObject envelope)
          ⊎ ((fields : Fields) × (envelope ≡ object fields)
              × ¬ IsObject (or_default (lookup "payload" fields) (object end))))

  not_a_dict :
      (v : Json) (key : String)
      → ¬ IsObject v
      → (text : String) × (get v key ≡ raise (attribute_error text))
  unfolding get
  not_a_dict (object fields) key h = absurd (h tt)
  not_a_dict null key h = (_, refl)
  not_a_dict (boolean b) key h = (_, refl)
  not_a_dict (int n) key h = (_, refl)
  not_a_dict (float z t) key h = (_, refl)
  not_a_dict (string t) key h = (_, refl)
  not_a_dict (array vs) key h = (_, refl)

  -- A header that is base64 JSON of something that is not a dict, or of a dict whose payload is
  -- neither empty nor a dict, makes the gate raise an `AttributeError`: it is not answered
  -- MALFORMED_PAYMENT.
  pub gate-IsAttributeError :
      (header : String)
      → str_eq header "" ≡ false
      → IsIllShaped header
      → Raises IsAttributeError (apply_x402_gate d policy lookup_profile (some header))
  unfolding apply_x402_gate get
  gate-IsAttributeError header full (envelope, e, inl h) =
      let (text, bad) = not_a_dict envelope "payload" h in
      rw (full, check_header, e, check_envelope, bad) tt
  gate-IsAttributeError header full (envelope, e, inr (fields, is, h)) =
      let (text, bad) =
        not_a_dict (or_default (lookup "payload" fields) (object end)) "serializedTransaction" h in
      rw (full, check_header, e, is, check_envelope, bad) tt

  -- The header's envelope and payload are dicts, if it decodes at all.
  abbrev pub IsShaped : String → Type 0
  IsShaped header =
      (envelope : Json)
      → decode_x_payment_header d header ≡ ok envelope
      → (fields : Fields) × (envelope ≡ object fields)
        × (payload : Fields) × (or_default (lookup "payload" fields) (object end) ≡ object payload)

  -- A profile is `None`, or a dict whose score and bond `int` reads.
  abbrev pub IsProfile : Json → Type 0
  IsProfile profile =
      (profile ≡ null)
      ⊎ ((fields : Fields) × (profile ≡ object fields)
          × ((score : ℤ) × (number_of d policy profile "score" ≡ ok score))
          × ((bond : ℤ) × (number_of d policy profile "bond_atomic" ≡ ok bond)))

  abbrev Returns : Result GateResult → Type 0
  Returns r = (answer : GateResult) × (r ≡ ok answer)

  bond-Returns :
      (payer : String) (profile : Json) (n : ℤ) → Returns (check_bond d policy payer profile n)
  unfolding check_bond
  bond-Returns payer profile n = elim (Bool-cases (ltb_ℤ n policy.min_bond_atomic)) [
    | inl low ↦ rw low (_, refl)
    | inr high ↦ rw high (_, refl)
  ]

  profile-Returns :
      (payer : String) (profile : Json)
      → IsProfile profile
      → Returns (check_profile d policy payer profile)
  unfolding check_profile get
  profile-Returns payer profile (inl e) = rw e (_, refl)
  profile-Returns payer profile (inr (fields, e, (score, s), (bond, b))) =
      let s' = rw e at s in
      let b' = rw e at b in
      rw e (elim (Bool-cases (truthy (lookup "frozen" fields))) [
        | inl frost ↦ rw (check_frozen, frost) (_, refl)
        | inr clear ↦ elim (Bool-cases (ltb_ℤ score policy.min_score)) [
          | inl low ↦ rw (check_frozen, clear, s', check_score, low) (_, refl)
          | inr high ↦
              let (answer, last) = bond-Returns payer (object fields) bond in
              rw (check_frozen, clear, s', check_score, high, b') (answer, last)
        ]
      ])

  payer-Returns :
      (payer : String)
      → ((profile : Json) → lookup_profile payer ≡ ok profile → IsProfile profile)
      → Returns (check_payer d policy lookup_profile payer)
  unfolding check_payer
  payer-Returns payer h = elim (Result-cases (lookup_profile payer)) [
    | inl (profile, e) ↦ rw (check_payer, e) (profile-Returns payer profile (h profile e))
    | inr (x, e) ↦ rw (check_payer, e) (_, refl)
  ]

  error-Returns : (e : Exception) → IsPaymentError e → Returns (catch_parse_error e)
  error-Returns e (code, text, is, why) = rw is (_, refl)

  payment-Returns :
      (v : Json)
      → ((payer : String) (profile : Json) → lookup_profile payer ≡ ok profile → IsProfile profile)
      → Returns (check_payment d policy lookup_profile v)
  unfolding check_payment
  payment-Returns (string serialized) h = elim (Result-cases (extract_payer d serialized)) [
    | inl (payer, e) ↦ rw (check_payment, e) (payer-Returns payer (h payer))
    | inr (x, e) ↦ rw (check_payment, e) (error-Returns x (extract_payer_error d serialized x e))
  ]
  payment-Returns null h = (_, refl)
  payment-Returns (boolean b) h = (_, refl)
  payment-Returns (int n) h = (_, refl)
  payment-Returns (float z t) h = (_, refl)
  payment-Returns (array vs) h = (_, refl)
  payment-Returns (object fs) h = (_, refl)

  header-Returns :
      (header : String)
      → IsShaped header
      → ((payer : String) (profile : Json) → lookup_profile payer ≡ ok profile → IsProfile profile)
      → Returns (check_header d policy lookup_profile header)
  unfolding check_header get
  header-Returns header shaped h = elim (Result-cases (decode_x_payment_header d header)) [
    | inl (v, e) ↦
        let (fields, is, payload, at) = shaped v e in
        let (answer, last) = payment-Returns (lookup "serializedTransaction" payload) h in
        rw (check_header, e, is, check_envelope, at) (answer, last)
    | inr (x, e) ↦ rw (check_header, e) (error-Returns x (decode_error d header x e))
  ]

  -- If the header's envelope and payload are dicts, where it decodes at all, and every profile that
  -- the lookup gives is `None` or a dict with a readable score and bond, then the gate returns an
  -- answer, whatever the header, the payment and the lookup's failures are.
  pub gate_returns :
      (x_payment_header : Option String)
      → ((header : String) → x_payment_header ≡ some header → IsShaped header)
      → ((payer : String) (profile : Json) → lookup_profile payer ≡ ok profile → IsProfile profile)
      → (answer : GateResult) × (apply_x402_gate d policy lookup_profile x_payment_header
          ≡ ok answer)
  unfolding apply_x402_gate
  gate_returns none shaped h = (_, refl)
  gate_returns (some header) shaped h = elim (Bool-cases (str_eq header "")) [
    | inl empty ↦ rw empty (_, refl)
    | inr full ↦ rw full (header-Returns header (shaped header refl) h)
  ]
