-- ===== src/X402/Hosted.antt =====
-- The gate of x402.py with the hosted lookup: what lets a request pass, from its header to the
-- response of the indexer.
use ars_solana.Prelude.{
  ◌≡◌, ◌≢◌, ◌↔◌, refl, ap, ◌∙◌, inl, inr, String, false, ◌==◌, Bool-cases, Option, ok, >>=-eq-ok,
  ok-injective, arith,
}
use ars_solana.Json.{Json, Fields, null, boolean, int, float, string, array, object, lookup}
use ars_solana.X402.Transactions.{Decoders}
use ars_solana.X402.Gate.{GatePolicy, gate_pass, apply_x402_gate}
use ars_solana.X402.Policy.{Meets}
use ars_solana.X402.Passes.{Presents, gate_pass_iff}
use ars_solana.X402.Lookup.{Response, HttpGet, agent_of, profile_of, lookup_url, http_lookup}

module _ {T : Type 0} (get : HttpGet T) (api_base : String) (timeout_s : T) where
  -- The indexer's answer on a key is an object, with this as its agent.
  abbrev pub Serves : String → Json → Type 0
  Serves payer profile =
      (r : Response) × (body : Fields) × (get (lookup_url api_base payer) timeout_s ≡ ok r)
      × (r.status_code ≢ 404)
      × (r.raise_for_status ≡ ok tt)
      × (r.json ≡ ok (object body))
      × (lookup "agent" body ≡ profile)

  -- A profile that is an object is the agent of a body that is one.
  agent_found :
      (body profile : Json) (fields : Fields)
      → profile ≡ object fields
      → agent_of body ≡ profile
      → (inner : Fields) × (body ≡ object inner) × (lookup "agent" inner ≡ profile)
  unfolding agent_of
  agent_found (object inner) profile fields p h = (inner, refl, h)
  agent_found null profile fields p h = cc
  agent_found (boolean b) profile fields p h = cc
  agent_found (int n) profile fields p h = cc
  agent_found (float z t) profile fields p h = cc
  agent_found (string t) profile fields p h = cc
  agent_found (array vs) profile fields p h = cc

  found-Serves :
      (payer : String) (profile : Json) (fields : Fields)
      → profile ≡ object fields
      → http_lookup get api_base timeout_s payer ≡ ok profile
      → Serves payer profile
  unfolding http_lookup profile_of
  found-Serves payer profile fields p h =
      let (r, e, rest) = >>=-eq-ok (get (lookup_url api_base payer) timeout_s) _ h in
      elim (Bool-cases (r.status_code == 404)) [
        | inl missing ↦ let nothing = rw missing at rest in cc
        | inr there ↦
            let (u, f, later) = >>=-eq-ok r.raise_for_status _ (rw there at rest) in
            let (body, g, last) = >>=-eq-ok r.json _ later in
            let (inner, is, agent) = agent_found body profile fields p (ok-injective last) in
            (r, inner, e, (λ m. ground arith), f, g ∙ ap ok is, agent)
      ]

  Serves-found :
      (payer : String) (profile : Json)
      → Serves payer profile
      → http_lookup get api_base timeout_s payer ≡ ok profile
  unfolding http_lookup profile_of agent_of
  Serves-found payer profile (r, body, e, n, f, g, agent) =
      let there : (r.status_code == 404) ≡ false = ground arith in rw (e, there, f, g, agent) refl

  module _ (d : Decoders) (policy : GatePolicy) where
    -- With the hosted lookup, the gate lets a request pass exactly if its header presents the payer,
    -- the indexer answers a request for that payer's key, at the base's address, with a status that is
    -- neither 404 nor an error and a JSON object whose agent is the profile, and the profile is an
    -- object that is not frozen and has at least the least score and the least bond.
    pub hosted_pass_iff :
        (x_payment_header : Option String) (payer : String) (profile : Json)
        → (apply_x402_gate d policy (http_lookup get api_base timeout_s) x_payment_header
            ≡ ok (gate_pass payer profile))
          ↔ (Presents d x_payment_header payer × Serves payer profile × Meets d policy profile)
    hosted_pass_iff x payer profile =
        let gate = gate_pass_iff d policy (http_lookup get api_base timeout_s) x payer profile in
        (
          λ h.
              let (paid, found, meets) = gate.0 h in
              (paid, found-Serves payer profile meets.0 meets.1 found, meets),
          λ (paid, serves, meets). gate.1 (paid, Serves-found payer profile serves, meets),
        )
