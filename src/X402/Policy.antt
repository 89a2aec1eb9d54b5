-- ===== src/X402/Policy.antt =====
-- What the gate of x402.py lets pass.
use ars_solana.Prelude.{
  ◌≡◌, refl, ap, ◌∙◌, inl, inr, String, false, Bool-cases, ℤ, ltb_ℤ, ltb_ℤ-false, ◌≤ℤ◌, Exception,
  Result, ok, Result-cases, >>=-eq-ok,
}
use ars_solana.Json.{
  Json, Fields, null, boolean, int, float, string, array, object, lookup, get, truthy,
}
use ars_solana.X402.Transactions.{Decoders}
use ars_solana.X402.Gate.{
  GatePolicy, GateResult, gate_pass, catch_parse_error, number_of, check_bond, check_score,
  check_frozen, check_profile, check_payer,
}

module _ (d : Decoders) where
  module _ (policy : GatePolicy) where
    -- The profile's number under this key (0, if there is none) is at least this one.
    abbrev pub Reaches : Json → String → ℤ → Type 0
    Reaches profile key least = (n : ℤ) × (number_of d policy profile key ≡ ok n) × (least ≤ℤ n)

    -- The profile is an object that is not frozen, and has the score and the bond asked for.
    abbrev pub Meets : Json → Type 0
    Meets profile =
        (fields : Fields) × (profile ≡ object fields)
        × (truthy (lookup "frozen" fields) ≡ false)
        × Reaches profile "score" policy.min_score
        × Reaches profile "bond_atomic" policy.min_bond_atomic

    passed_payer :
        {p q : String} {v w : Json}
        → ◌≡◌ {A = Result GateResult} (ok (gate_pass p v)) (ok (gate_pass q w))
        → p ≡ q
    passed_payer h = cc

    passed_profile :
        {p q : String} {v w : Json}
        → ◌≡◌ {A = Result GateResult} (ok (gate_pass p v)) (ok (gate_pass q w))
        → v ≡ w
    passed_profile h = cc

    bond_passed :
        {payer p : String} {profile q : Json} (n : ℤ)
        → check_bond d policy payer profile n ≡ ok (gate_pass p q)
        → (payer ≡ p) × (profile ≡ q) × (policy.min_bond_atomic ≤ℤ n)
    unfolding check_bond
    bond_passed n h = elim (Bool-cases (ltb_ℤ n policy.min_bond_atomic)) [
      | inl low ↦ let h' = rw low at h in cc
      | inr reached ↦
          let h' = rw reached at h in
          (passed_payer h', passed_profile h', (ltb_ℤ-false n policy.min_bond_atomic).0 reached)
    ]

    pub catch_not_pass :
        (e : Exception) {p : String} {q : Json} → ¬ (catch_parse_error e ≡ ok (gate_pass p q))
    catch_not_pass (Exception.x402_parse_error c m) h = cc
    catch_not_pass (Exception.ars_transition_error m) h = cc
    catch_not_pass (Exception.value_error m) h = cc
    catch_not_pass (Exception.overflow_error m) h = cc
    catch_not_pass (Exception.type_error m) h = cc
    catch_not_pass (Exception.attribute_error m) h = cc
    catch_not_pass (Exception.index_error m) h = cc
    catch_not_pass (Exception.runtime_error m) h = cc
    catch_not_pass (Exception.not_implemented_error m) h = cc
    catch_not_pass (Exception.foreign_error n m) h = cc

    score_passed :
        {payer p : String} {profile q : Json} (n : ℤ)
        → check_score d policy payer profile n ≡ ok (gate_pass p q)
        → (payer ≡ p)
          × (profile ≡ q)
          × (policy.min_score ≤ℤ n)
          × Reaches profile "bond_atomic" policy.min_bond_atomic
    unfolding check_score
    score_passed {payer} {p} {profile} n h = elim (Bool-cases (ltb_ℤ n policy.min_score)) [
      | inl low ↦ let h' = rw low at h in cc
      | inr reached ↦
          let h' = rw reached at h in
          let (bond, e, last) = >>=-eq-ok (number_of d policy profile "bond_atomic") _ h' in
          let (same, same', enough) = bond_passed bond last in
          (same, same', (ltb_ℤ-false n policy.min_score).0 reached, (bond, e, enough))
    ]

    frozen_passed :
        {payer p : String} {profile q : Json} (frozen : Json)
        → check_frozen d policy payer profile frozen ≡ ok (gate_pass p q)
        → (payer ≡ p)
          × (profile ≡ q)
          × (truthy frozen ≡ false)
          × Reaches profile "score" policy.min_score
          × Reaches profile "bond_atomic" policy.min_bond_atomic
    unfolding check_frozen
    frozen_passed {payer} {p} {profile} frozen h = elim (Bool-cases (truthy frozen)) [
      | inl frost ↦ let h' = rw frost at h in cc
      | inr clear ↦
          let h' = rw clear at h in
          let (score, e, next) = >>=-eq-ok (number_of d policy profile "score") _ h' in
          let (same, same', enough, bond) = score_passed score next in
          (same, same', clear, (score, e, enough), bond)
    ]

    profile_passed :
        {payer p : String} (profile : Json) {q : Json}
        → check_profile d policy payer profile ≡ ok (gate_pass p q)
        → (payer ≡ p) × (profile ≡ q) × Meets profile
    unfolding check_profile get
    profile_passed (object fields) h =
        let (a, b, c, s, t) = frozen_passed (lookup "frozen" fields) h in
        (a, b, (fields, refl, c, s, t))
    profile_passed null h = cc
    profile_passed (boolean b) h = cc
    profile_passed (int n) h = cc
    profile_passed (float z t) h = cc
    profile_passed (string t) h = cc
    profile_passed (array vs) h = cc

    pub profile-Meets :
        (payer : String) (profile : Json)
        → Meets profile
        → check_profile d policy payer profile ≡ ok (gate_pass payer profile)
    unfolding check_profile get
    profile-Meets payer profile (fields, e, c, (n, s, enough), (m, t, enough')) =
        let score = (ltb_ℤ-false n policy.min_score).1 enough in
        let bond = (ltb_ℤ-false m policy.min_bond_atomic).1 enough' in
        let s' = rw e at s in
        let t' = rw e at t in
        rw e (rw (check_frozen, c, s', check_score, score, t', check_bond, bond) refl)

    pub payer_passed :
        (lookup_profile : String → Result Json) (payer p : String) {q : Json}
        → check_payer d policy lookup_profile payer ≡ ok (gate_pass p q)
        → (payer ≡ p) × (lookup_profile payer ≡ ok q) × Meets q
    unfolding check_payer
    payer_passed lookup_profile payer p h = elim (Result-cases (lookup_profile payer)) [
      | inl (profile, e) ↦
          let (same, same', meets) = profile_passed profile (rw (check_payer, e) at h) in
          (same, e ∙ ap ok same', rw same' at meets)
      | inr (x, e) ↦ let h' = rw (check_payer, e) at h in cc
    ]
