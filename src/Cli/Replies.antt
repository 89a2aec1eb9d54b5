-- ===== src/Cli/Replies.antt =====
-- What a report of the HTTP transport of conformance_cli.py says of the endpoint.
use ars_solana.Prelude.{
  ◌≡◌, ◌↔◌, refl, ap, ◌∙◌, inl, inr, ℕ, ◌+◌, ◌≤◌, ◌<◌, String, Bool, true, false, Bool-cases, none,
  some, length, All, All-map, ℤ, pos, ◌==ℤ◌, ==ℤ_iff, ◌==◌, ==_iff, str_eq, ◌<+>◌, if◌then◌else◌,
  Result, ok, ok-injective, Result-cases, >>=-eq-ok, arith,
}
use text.Mathlib.TextEquality.{eq_iff}
use ars_solana.Json.{
  Json, null, boolean, int, float, string, array, object, Fields, lookup, get, got, or_default,
  to_int,
}
use ars_solana.X402.Lookup.{Response}
use ars_solana.Conformance.{
  StateVector, IllegalVector, ViewBondVector, ConformanceReport, report_ok,
}
use ars_solana.Conformance.Vectors.{state_vectors, illegal_vectors, loaded_vectors}
use ars_solana.Conformance.Report.{harness_iff, harness_returns}
use ars_solana.Cli.Http.{
  is_client_error, is_text, events_body, bond_body, compare_reply, state_reply, http_state_failure,
  http_illegal_failure, bond_reply, http_bond_failure, run_http,
}

module _ (parse_int : String → Result ℤ) (str_json : Json → String)
    (post : String → Json → Result Response) (base : String) where
  -- The endpoint answers a log with 200 and the expected state and amount.
  abbrev pub Replays : StateVector → Type 0
  Replays v =
      (resp : Response) × (post (base <+> "/replay") (events_body v.log) ≡ ok resp)
      × (resp.status_code ≡ 200)
      × (fields : Fields) × (resp.json ≡ ok (object fields))
      × (lookup "state" fields ≡ string v.expected_state)
      × (to_int parse_int (or_default (lookup "released_atomic" fields) (int (pos 0)))
          ≡ ok v.expected_released_atomic)

  -- The endpoint answers a log with some 4xx status.
  abbrev pub Rejects : IllegalVector → Type 0
  Rejects v =
      (resp : Response) × (post (base <+> "/replay") (events_body v.log) ≡ ok resp)
      × (400 ≤ resp.status_code)
      × (resp.status_code < 500)

  -- The endpoint answers a pair of numbers with 200 and the expected encoding.
  abbrev pub Answers : ViewBondVector → Type 0
  Answers v =
      (resp : Response) × (post (base <+> "/view_bond") (bond_body v) ≡ ok resp)
      × (resp.status_code ≡ 200)
      × (fields : Fields) × (resp.json ≡ ok (object fields))
      × (str_json (or_default (lookup "data_hex" fields) (string "")) ≡ v.expected_data_hex)

  no_failure : (b : Bool) (text : String) → (if b then none else some text) ≡ none → b ≡ true
  no_failure true text h = refl
  no_failure false text h = cc

  client_error : (n : ℕ) → 400 ≤ n → n < 500 → is_client_error n ≡ true
  client_error n a b = ground arith

  illegal_iff :
      (v : IllegalVector) → (http_illegal_failure parse_int str_json post base v ≡ none) ↔ Rejects v
  unfolding http_illegal_failure
  illegal_iff v = elim (Result-cases (post (base <+> "/replay") (events_body v.log))) [
    | inr (e, p) ↦ rw (http_illegal_failure, p) (λ h. cc, λ (resp, q, a, b). cc)
    | inl (resp, p) ↦
        rw (http_illegal_failure, p)
          (
            λ h.
                let y = no_failure (is_client_error resp.status_code) _ h in
                (resp, refl, ground arith, ground arith),
            λ (r, q, a, b).
                let same = ok-injective q in
                rw
                  (ap (λ (x : Response). is_client_error x.status_code) same
                    ∙ client_error r.status_code a b)
                  refl,
          )
  ]

  is_text_sound : (v : Json) (t : String) → is_text v t ≡ true → v ≡ string t
  is_text_sound (string x) t h = ap string ((eq_iff x t).0 h)
  is_text_sound null t h = cc
  is_text_sound (boolean b) t h = cc
  is_text_sound (int n) t h = cc
  is_text_sound (float z x) t h = cc
  is_text_sound (array vs) t h = cc
  is_text_sound (object fs) t h = cc

  compare_sound :
      (v : StateVector) (state released : Json)
      → compare_reply parse_int str_json post base v state released ≡ ok none
      → (state ≡ string v.expected_state)
        × (to_int parse_int (or_default released (int (pos 0))) ≡ ok v.expected_released_atomic)
  unfolding compare_reply
  compare_sound v state released h = elim (Bool-cases (is_text state v.expected_state)) [
    | inr n ↦ let h' = rw n at h in cc
    | inl y ↦
        let h' = rw y at h in
        let (amount, e, last) =
          >>=-eq-ok (to_int parse_int (or_default released (int (pos 0)))) _ h' in
        let same = no_failure (amount ==ℤ v.expected_released_atomic) _ (ok-injective last) in
        (
          is_text_sound state v.expected_state y,
          e ∙ ap ok ((==ℤ_iff amount v.expected_released_atomic).0 same),
        )
  ]

  reply_sound :
      (v : StateVector) (resp : Response)
      → state_reply parse_int str_json post base v resp ≡ ok none
      → (resp.status_code ≡ 200)
        × (fields : Fields) × (resp.json ≡ ok (object fields))
        × (lookup "state" fields ≡ string v.expected_state)
        × (to_int parse_int (or_default (lookup "released_atomic" fields) (int (pos 0)))
            ≡ ok v.expected_released_atomic)
  unfolding state_reply get
  reply_sound v resp h = elim (Bool-cases (resp.status_code == 200)) [
    | inr n ↦ let h' = rw n at h in cc
    | inl y ↦
        let h' = rw y at h in
        let (payload, e1, n1) = >>=-eq-ok resp.json _ h' in
        let (state, e2, n2) = >>=-eq-ok (get payload "state") _ n1 in
        let (released, e3, n3) = >>=-eq-ok (get payload "released_atomic") _ n2 in
        let (fields, is, at) = got payload "state" e2 in
        let e3' = rw is at e3 in
        let (a, b) = compare_sound v state released n3 in
        (
          (==_iff resp.status_code 200).0 y,
          fields,
          e1 ∙ ap ok is,
          at ∙ a,
          rw (← ok-injective e3') at b,
        )
  ]

  state_iff :
      (v : StateVector) → (http_state_failure parse_int str_json post base v ≡ none) ↔ Replays v
  unfolding http_state_failure state_reply get compare_reply
  state_iff v = (sound, complete)
    where
      sound : http_state_failure parse_int str_json post base v ≡ none → Replays v
      sound h = elim (Result-cases (post (base <+> "/replay") (events_body v.log))) [
        | inr (e, p) ↦ let h' = rw (http_state_failure, p) at h in cc
        | inl (resp, p) ↦ elim (Result-cases (state_reply parse_int str_json post base v resp)) [
          | inr (e, q) ↦ let h' = rw (http_state_failure, p, q) at h in cc
          | inl (o, q) ↦
              let h' = rw (http_state_failure, p, q) at h in
              let (a, fields, b, c, e) = reply_sound v resp (q ∙ ap ok h') in
              (resp, p, a, fields, b, c, e)
        ]
      ]

      complete : Replays v → http_state_failure parse_int str_json post base v ≡ none
      complete (resp, p, a, fields, b, c, e) =
          rw
            (
              http_state_failure,
              p,
              state_reply,
              (==_iff resp.status_code 200).1 a,
              b,
              c,
              compare_reply,
              (eq_iff v.expected_state v.expected_state).1 refl,
              e,
              (==ℤ_iff v.expected_released_atomic v.expected_released_atomic).1 refl,
            )
            refl

  bond_iff :
      (v : ViewBondVector) → (http_bond_failure parse_int str_json post base v ≡ none) ↔ Answers v
  unfolding http_bond_failure bond_reply get
  bond_iff v = (sound, complete)
    where
      sound : http_bond_failure parse_int str_json post base v ≡ none → Answers v
      sound h = elim (Result-cases (post (base <+> "/view_bond") (bond_body v))) [
        | inr (e, p) ↦ let h' = rw (http_bond_failure, p) at h in cc
        | inl (resp, p) ↦ elim (Bool-cases (resp.status_code == 200)) [
          | inr n ↦ let h' = rw (http_bond_failure, p, bond_reply, n) at h in cc
          | inl y ↦ elim (Result-cases resp.json) [
            | inr (e, q) ↦ let h' = rw (http_bond_failure, p, bond_reply, y, q) at h in cc
            | inl (payload, q) ↦ elim (Result-cases (get payload "data_hex")) [
              | inr (e, g) ↦ let h' = rw (http_bond_failure, p, bond_reply, y, q, g) at h in cc
              | inl (hex, g) ↦
                  let h' = rw (http_bond_failure, p, bond_reply, y, q, g) at h in
                  let (fields, is, at) = got payload "data_hex" g in
                  let text = str_json (or_default hex (string "")) in
                  (
                    resp,
                    p,
                    (==_iff resp.status_code 200).0 y,
                    fields,
                    q ∙ ap ok is,
                    ap (λ (j : Json). str_json (or_default j (string ""))) at
                        ∙ (eq_iff text v.expected_data_hex).0
                            (no_failure (str_eq text v.expected_data_hex) _ h'),
                  )
            ]
          ]
        ]
      ]

      complete : Answers v → http_bond_failure parse_int str_json post base v ≡ none
      complete (resp, p, a, fields, b, c) =
          rw
            (
              http_bond_failure,
              p,
              bond_reply,
              (==_iff resp.status_code 200).1 a,
              b,
              c,
              (eq_iff v.expected_data_hex v.expected_data_hex).1 refl,
            )
            refl

  -- The HTTP transport always gives a report, which accounts for the 5 logs, the 3 illegal logs and
  -- the 4 encodings, and is ok exactly if the endpoint answers each log with 200 and the expected
  -- state and amount, each illegal log with some 4xx status, and each pair of numbers with 200 and
  -- the expected encoding.
  pub run_http_iff :
      (r : ConformanceReport) × (run_http parse_int str_json post base ≡ ok r)
      × (r.state_passed + length r.state_failed ≡ 5)
      × (r.illegal_passed + length r.illegal_failed ≡ 3)
      × (r.view_bond_passed + length r.view_bond_failed ≡ 4)
      × ((report_ok r ≡ true)
          ↔ (All Replays state_vectors × All Rejects illegal_vectors × All Answers loaded_vectors))
  unfolding run_http
  run_http_iff =
      let states = http_state_failure parse_int str_json post base in
      let illegals = http_illegal_failure parse_int str_json post base in
      let bonds = (λ (v : ViewBondVector). ok (http_bond_failure parse_int str_json post base v)) in
      let (r, h) =
        harness_returns state_vectors illegal_vectors loaded_vectors states illegals bonds
          ((_, refl), ((_, refl), ((_, refl), ((_, refl), tt)))) in
      let (a, b, c, clean) =
        harness_iff state_vectors illegal_vectors loaded_vectors states illegals bonds r h in
      (
        r,
        h,
        a,
        b,
        c,
        (
          λ e.
              let (x, y, z) = clean.0 e in
              (
                All-map state_vectors (λ v p. (state_iff v).0 (ok-injective p)) x,
                All-map illegal_vectors (λ v p. (illegal_iff v).0 (ok-injective p)) y,
                All-map loaded_vectors (λ v p. (bond_iff v).0 (ok-injective p)) z,
              ),
          λ (x, y, z). clean.1 (
            All-map state_vectors (λ v p. ap ok ((state_iff v).1 p)) x,
            All-map illegal_vectors (λ v p. ap ok ((illegal_iff v).1 p)) y,
            All-map loaded_vectors (λ v p. ap ok ((bond_iff v).1 p)) z,
          ),
        ),
      )
