-- ===== src/X402/Passes.antt =====
-- When the gate of x402.py lets a request pass.
use ars_solana.Prelude.{
  ◌≡◌, refl, ◌↔◌, inl, inr, String, false, Bool-cases, Option, none, some, str_eq, Result, ok,
  Result-cases, >>=-eq-ok,
}
use ars_solana.Json.{
  Json, Fields, null, boolean, int, float, string, array, object, end, lookup, get, or_default, got,
}
use ars_solana.X402.Transactions.{Decoders, decode_x_payment_header, extract_payer}
use ars_solana.X402.Gate.{
  GatePolicy, gate_pass, check_payer, check_payment, check_envelope, check_header, apply_x402_gate,
}
use ars_solana.X402.Policy.{Meets, catch_not_pass, profile-Meets, payer_passed}

module _ (d : Decoders) where
  -- The header is a text that holds an object, whose payload (an empty object, if there is none)
  -- has a transaction of this payer.
  abbrev pub Presents : Option String → String → Type 0
  Presents x_payment_header payer =
      (header : String) × (x_payment_header ≡ some header)
      × (str_eq header "" ≡ false)
      × (envelope : Fields) × (decode_x_payment_header d header ≡ ok (object envelope))
      × (payload : Fields) × (or_default (lookup "payload" envelope) (object end) ≡ object payload)
      × (serialized : String) × (lookup "serializedTransaction" payload ≡ string serialized)
      × (extract_payer d serialized ≡ ok payer)

  module _ (policy : GatePolicy) where
    module _ (lookup_profile : String → Result Json) where
      -- A payer was found, and the lookup gave this profile, which meets the policy.
      abbrev Passed : String → Json → Type 0
      Passed payer profile = (lookup_profile payer ≡ ok profile) × Meets d policy profile

      -- The serialized transaction names the payer.
      abbrev Names : Json → String → Type 0
      Names v payer =
          (serialized : String) × (v ≡ string serialized) × (extract_payer d serialized ≡ ok payer)

      payment-Passed :
          (v : Json) (payer : String) (profile : Json)
          → check_payment d policy lookup_profile v ≡ ok (gate_pass payer profile)
          → Names v payer × Passed payer profile
      unfolding check_payment
      payment-Passed (string serialized) payer profile h =
          elim (Result-cases (extract_payer d serialized)) [
            | inl (p, e) ↦
                let (same, found, meets) =
                  payer_passed d policy lookup_profile p payer (rw (check_payment, e) at h) in
                ((serialized, refl, rw same at e), (rw same at found, meets))
            | inr (x, e) ↦ absurd (catch_not_pass d policy x (rw (check_payment, e) at h))
          ]
      payment-Passed null payer profile h = cc
      payment-Passed (boolean b) payer profile h = cc
      payment-Passed (int n) payer profile h = cc
      payment-Passed (float z t) payer profile h = cc
      payment-Passed (array vs) payer profile h = cc
      payment-Passed (object fs) payer profile h = cc

      -- A `.get` that returned was a dict's.
      envelope-Passed :
          (v : Json) (payer : String) (profile : Json)
          → check_envelope d policy lookup_profile v ≡ ok (gate_pass payer profile)
          → ((envelope : Fields) × (v ≡ object envelope)
              × (payload : Fields) × (or_default (lookup "payload" envelope) (object end)
                  ≡ object payload)
              × Names (lookup "serializedTransaction" payload) payer)
            × Passed payer profile
      unfolding check_envelope
      envelope-Passed v payer profile h =
          let (w, e, rest) = >>=-eq-ok (get v "payload") _ h in
          let (t, e', last) =
            >>=-eq-ok (get (or_default w (object end)) "serializedTransaction") _ rest in
          let (envelope, is, at) = got v "payload" e in
          let (payload, is', at') = got _ "serializedTransaction" e' in
          let (names, found) = payment-Passed t payer profile last in
          ((envelope, is, payload, rw at is', rw at' names), found)

      header_passed :
          (header payer : String) (profile : Json)
          → check_header d policy lookup_profile header ≡ ok (gate_pass payer profile)
          → (v : Json) × (decode_x_payment_header d header ≡ ok v)
            × (check_envelope d policy lookup_profile v ≡ ok (gate_pass payer profile))
      unfolding check_header
      header_passed header payer profile h =
          elim (Result-cases (decode_x_payment_header d header)) [
            | inl (v, e) ↦ (v, e, rw (check_header, e) at h)
            | inr (x, e) ↦ absurd (catch_not_pass d policy x (rw (check_header, e) at h))
          ]

      gate-Passed :
          (x_payment_header : Option String) (payer : String) (profile : Json)
          → apply_x402_gate d policy lookup_profile x_payment_header ≡ ok (gate_pass payer profile)
          → Presents x_payment_header payer × Passed payer profile
      unfolding apply_x402_gate
      gate-Passed none payer profile h = cc
      gate-Passed (some header) payer profile h = elim (Bool-cases (str_eq header "")) [
        | inl empty ↦ let h' = rw empty at h in cc
        | inr full ↦
            let (v, e, next) = header_passed header payer profile (rw full at h) in
            let ((envelope, is, payload, at, names), found) =
              envelope-Passed v payer profile next in
            let (serialized, at', paid) = names in
            ((header, refl, full, envelope, rw is at e, payload, at, serialized, at', paid), found)
      ]

      gate_lets_pass :
          (x_payment_header : Option String) (payer : String) (profile : Json)
          → Presents x_payment_header payer
          → Passed payer profile
          → apply_x402_gate d policy lookup_profile x_payment_header ≡ ok (gate_pass payer profile)
      unfolding apply_x402_gate get
      gate_lets_pass x payer profile
            (header, is, full, envelope, e, payload, at, serialized, at', paid) (found, meets) =
          rw
            (
              is, full, check_header, e, check_envelope, at, at', check_payment, paid, check_payer,
              found,
            )
            (profile-Meets d policy payer profile meets)

      -- The gate lets a request pass, with a payer and a profile, exactly if its header is base64
      -- JSON of an envelope with a transaction of that payer, the lookup gives that profile for the
      -- payer, and the profile is not frozen and has at least the least score and the least bond.
      pub gate_pass_iff :
          (x_payment_header : Option String) (payer : String) (profile : Json)
          → (apply_x402_gate d policy lookup_profile x_payment_header
              ≡ ok (gate_pass payer profile))
            ↔ (Presents x_payment_header payer
                × (lookup_profile payer ≡ ok profile)
                × Meets d policy profile)
      gate_pass_iff x payer profile = (
        λ h. let (paid, passed) = gate-Passed x payer profile h in (paid, passed.0, passed.1),
        λ (paid, found, meets). gate_lets_pass x payer profile paid (found, meets),
      )
