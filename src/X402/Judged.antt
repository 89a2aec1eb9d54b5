-- ===== src/X402/Judged.antt =====
-- How the gate of x402.py judges a payer, and the HTTP status of each verdict.
use ars_solana.Prelude.{
  ◌≡◌, refl, ◌⊎◌, inl, inr, String, true, Bool-cases, some, ℤ, ltb_ℤ, ltb_ℤ-false, Exception,
  Result, ok, raise, Result-cases,
}
use ars_solana.Json.{
  Json, Fields, null, boolean, int, float, string, array, object, lookup, get, truthy,
}
use ars_solana.X402.Transactions.{Decoders}
use ars_solana.X402.Gate.{
  GatePolicy, GateResult, gate_pass, gate_fail, gate_unusable, number_of, check_bond, check_score,
  check_frozen, check_profile, check_payer, status_for_code,
}
use ars_solana.X402.Policy.{Reaches}

module _ (d : Decoders) where
  module _ (policy : GatePolicy) where
    -- Why a profile is refused, by the code.
    abbrev pub Explains : Json → String → Type 0
    Explains profile code =
        ((code ≡ "NOT_BONDED") × (profile ≡ null))
        ⊎ ((code ≡ "FROZEN")
            × (fields : Fields) × (profile ≡ object fields)
            × (truthy (lookup "frozen" fields) ≡ true))
        ⊎ ((code ≡ "SCORE_BELOW_MIN")
            × (score : ℤ) × (number_of d policy profile "score" ≡ ok score)
            × (ltb_ℤ score policy.min_score ≡ true))
        ⊎ ((code ≡ "BOND_BELOW_MIN")
            × Reaches d policy profile "score" policy.min_score
            × (bond : ℤ) × (number_of d policy profile "bond_atomic" ≡ ok bond)
            × (ltb_ℤ bond policy.min_bond_atomic ≡ true))

    -- What is said of a payer that was presented: a failure names the payer, with a code that the
    -- lookup explains and that code's status.
    abbrev pub Judged : (String → Result Json) → String → Result GateResult → Type 0
    Judged lookup_profile payer (ok (gate_fail code named text)) =
        (named ≡ some payer)
        × (((code ≡ "LOOKUP_FAILED")
              × (status_for_code code ≡ 502)
              × (e : Exception) × (lookup_profile payer ≡ raise e))
            ⊎ ((status_for_code code ≡ 403)
                × (profile : Json) × (lookup_profile payer ≡ ok profile)
                × Explains profile code))
    Judged lookup_profile payer (ok (gate_unusable code text)) = ⊥
    Judged lookup_profile payer (ok (gate_pass named profile)) = named ≡ payer
    Judged lookup_profile payer (raise e) = (profile : Json) × (lookup_profile payer ≡ ok profile)

    bond-Judged :
        (lookup_profile : String → Result Json) (payer : String) (profile : Json) (n : ℤ)
        → lookup_profile payer ≡ ok profile
        → number_of d policy profile "bond_atomic" ≡ ok n
        → Reaches d policy profile "score" policy.min_score
        → Judged lookup_profile payer (check_bond d policy payer profile n)
    unfolding check_bond status_for_code
    bond-Judged lookup_profile payer profile n found e enough =
        elim (Bool-cases (ltb_ℤ n policy.min_bond_atomic)) [
          | inl low ↦
              rw low (refl, inr (refl, profile, found, inr (inr (inr (refl, enough, n, e, low)))))
          | inr high ↦ rw high refl
        ]

    score-Judged :
        (lookup_profile : String → Result Json) (payer : String) (profile : Json) (n : ℤ)
        → lookup_profile payer ≡ ok profile
        → number_of d policy profile "score" ≡ ok n
        → Judged lookup_profile payer (check_score d policy payer profile n)
    unfolding check_score status_for_code
    score-Judged lookup_profile payer profile n found e =
        elim (Bool-cases (ltb_ℤ n policy.min_score)) [
          | inl low ↦ rw low (refl, inr (refl, profile, found, inr (inr (inl (refl, n, e, low)))))
          | inr high ↦ elim (Result-cases (number_of d policy profile "bond_atomic")) [
            | inl (m, e') ↦
                rw (high, e')
                  (bond-Judged lookup_profile payer profile m found e'
                    (n, e, (ltb_ℤ-false n policy.min_score).0 high))
            | inr (x, e') ↦ rw (high, e') (profile, found)
          ]
        ]

    profile-Judged :
        (lookup_profile : String → Result Json) (payer : String) (profile : Json)
        → lookup_profile payer ≡ ok profile
        → Judged lookup_profile payer (check_profile d policy payer profile)
    unfolding check_profile get check_frozen status_for_code
    profile-Judged lookup_profile payer null found =
        (refl, inr (refl, null, found, inl (refl, refl)))
    profile-Judged lookup_profile payer (object fields) found =
        elim (Bool-cases (truthy (lookup "frozen" fields))) [
          | inl frost ↦
              rw (check_frozen, frost)
                (refl, inr (refl, _, found, inr (inl (refl, fields, refl, frost))))
          | inr clear ↦ elim (Result-cases (number_of d policy (object fields) "score")) [
            | inl (n, e) ↦
                rw (check_frozen, clear, e)
                  (score-Judged lookup_profile payer (object fields) n found e)
            | inr (x, e) ↦ rw (check_frozen, clear, e) (object fields, found)
          ]
        ]
    profile-Judged lookup_profile payer (boolean b) found = (_, found)
    profile-Judged lookup_profile payer (int n) found = (_, found)
    profile-Judged lookup_profile payer (float z t) found = (_, found)
    profile-Judged lookup_profile payer (string t) found = (_, found)
    profile-Judged lookup_profile payer (array vs) found = (_, found)

    pub payer-Judged :
        (lookup_profile : String → Result Json) (payer : String)
        → Judged lookup_profile payer (check_payer d policy lookup_profile payer)
    unfolding check_payer status_for_code
    payer-Judged lookup_profile payer = elim (Result-cases (lookup_profile payer)) [
      | inl (profile, e) ↦ rw (check_payer, e) (profile-Judged lookup_profile payer profile e)
      | inr (x, e) ↦ rw (check_payer, e) (refl, inl (refl, refl, x, e))
    ]
