-- ===== src/X402/Lookup.antt =====
-- `http_profile_lookup` of x402.py. The `requests` package is a parameter, which is absent where
-- its import fails.
use Prim.Native.Char.{code}
use text.Mathlib.TextLemmas.{cons-append}
use ars_solana.Prelude.{
  ◌≡◌, ◌≢◌, ◌⊎◌, inl, inr, arith, ==_iff, ◌&&◌, str_eq, refl, ap, ◌∙◌, ℕ, ◌==◌, String, false,
  Bool-cases, Option, none, some, Exception, Result, ok, raise, Result-cases, ◌>>=◌, ◌<+>◌, rstrip,
  runtime_error, message, if◌then◌else◌,
}
use ars_solana.Json.{Json, null, object, lookup}
use ars_solana.X402.Transactions.{Decoders}
use ars_solana.X402.Gate.{GatePolicy, GateResult, gate_fail, check_payer, check_profile}

-- What the lookup reads of a response: the status, whether `raise_for_status` raises, the JSON.
pub record Response : Type 0 where
  pub status_code : ℕ
  pub raise_for_status : Result (Unit {0})
  pub json : Result Json

-- `requests.get(url, timeout=t)`
abbrev pub HttpGet : Type 0 → Type 0
HttpGet T = String → T → Result Response

-- `data.get("agent") if isinstance(data, dict) else None`
unfoldable pub agent_of : Json → Json
agent_of (object fields) = lookup "agent" fields
agent_of body = null

-- What the lookup makes of a response.
unfoldable pub profile_of : Response → Result Json
unfolding agent_of
profile_of r =
    if r.status_code == 404
    then ok null
    else (r.raise_for_status >>= λ u. r.json >>= λ body. ok (agent_of body))

unfoldable pub lookup_url : String → String → String
unfolding rstrip
lookup_url api_base pubkey = rstrip 0x2f api_base <+> "/api/agent/" <+> pubkey

module _ {T : Type 0} where
  -- The closure that `http_profile_lookup` returns.
  unfoldable pub http_lookup : HttpGet T → String → T → String → Result Json
  unfolding lookup_url profile_of
  http_lookup get api_base timeout_s pubkey =
      get (lookup_url api_base pubkey) timeout_s >>= λ r. profile_of r

  unfoldable pub http_profile_lookup :
      Option (HttpGet T) → String → T → Result (String → Result Json)
  unfolding http_lookup
  http_profile_lookup none api_base timeout_s = raise (
      runtime_error
        "http_profile_lookup requires the 'requests' package. pip install requests, or pass a custom lookup.")
  http_profile_lookup (some get) api_base timeout_s = ok (http_lookup get api_base timeout_s)

rstrip-slash : (s : String) → rstrip 0x2f (s <+> "/") ≡ rstrip 0x2f s
unfolding rstrip
rstrip-slash String.[] = refl
rstrip-slash (String.◌∷◌ c s) =
    ap (rstrip 0x2f) (cons-append c s "/")
    ∙ ap (λ rest. if str_eq rest "" && code c == 0x2f then "" else String.◌∷◌ c rest)
        (rstrip-slash s)

module _ (d : Decoders) (policy : GatePolicy) {T : Type 0} (get : HttpGet T) where
  -- What the gate answers to a payer by what the request for the payer's profile did.
  abbrev pub Answers : String → Result Response → Result GateResult → Type 0
  Answers payer (raise e) answer =
      answer ≡ ok (gate_fail "LOOKUP_FAILED" (some payer) ("profile lookup failed: " <+> message e))
  Answers payer (ok r) answer =
      ((r.status_code ≡ 404)
        × (answer ≡ ok (gate_fail "NOT_BONDED" (some payer) "agent has no Telaro registration")))
      ⊎ ((r.status_code ≢ 404)
          × (e : Exception) × ((r.raise_for_status ≡ raise e) ⊎ (r.json ≡ raise e))
          × (answer
              ≡ ok (
                  gate_fail "LOOKUP_FAILED" (some payer)
                    ("profile lookup failed: " <+> message e))))
      ⊎ ((r.status_code ≢ 404)
          × (r.raise_for_status ≡ ok tt)
          × (body : Json) × (r.json ≡ ok body)
          × (answer ≡ check_profile d policy payer (agent_of body)))

  response-Answers :
      (payer : String) (r : Response) (lookup_profile : String → Result Json)
      → lookup_profile payer ≡ profile_of r
      → Answers payer (ok r) (check_payer d policy lookup_profile payer)
  unfolding profile_of check_payer check_profile
  response-Answers payer r lookup_profile e = elim (Bool-cases (r.status_code == 404)) [
    | inl y ↦ let e' = rw y at e in inl ((==_iff r.status_code 404).0 y, rw (check_payer, e') refl)
    | inr n ↦ elim (Result-cases r.raise_for_status) [
      | inr (x, f) ↦
          let e' = rw (n, f) at e in inr (inl (ne n, x, inl f, rw (check_payer, e') refl))
      | inl (u, f) ↦ elim (Result-cases r.json) [
        | inr (x, g) ↦
            let e' = rw (n, f, g) at e in inr (inl (ne n, x, inr g, rw (check_payer, e') refl))
        | inl (body, g) ↦
            let e' = rw (n, f, g) at e in inr (inr (ne n, f, body, g, rw (check_payer, e') refl))
      ]
    ]
  ]
    where
      ne : (r.status_code == 404) ≡ false → r.status_code ≢ 404
      ne h = ground arith

  -- With the hosted lookup, a 404 means NOT_BONDED, a request that raises, another error status or
  -- an unreadable body means LOOKUP_FAILED, and otherwise the body's agent is the profile; the
  -- address asked is the same with or without a slash at the end of the base.
  pub http_lookup-Answers :
      (api_base : String) (timeout_s : T) (payer : String)
      → Answers payer
          (get (lookup_url api_base payer) timeout_s)
          (check_payer d policy (http_lookup get api_base timeout_s) payer)
        × (http_lookup get (api_base <+> "/") timeout_s payer
            ≡ http_lookup get api_base timeout_s payer)
  unfolding http_lookup check_payer lookup_url
  http_lookup-Answers api_base timeout_s payer = (
    elim (Result-cases (get (lookup_url api_base payer) timeout_s)) [
      | inr (e, p) ↦ rw (p, check_payer, http_lookup) refl
      | inl (r, p) ↦
          rw p (
            response-Answers payer r (http_lookup get api_base timeout_s)
              (rw (http_lookup, p) refl))
    ],
    ap (λ base. get (base <+> "/api/agent/" <+> payer) timeout_s >>= λ r. profile_of r)
        (rstrip-slash api_base),
  )
