-- ===== src/Cli/Http.antt =====
-- `_run_http_transport` of conformance_cli.py. `requests.post` is a parameter: a function from an
-- address and a body to a response, or an exception.
use ars_solana.Prelude.{
  ℕ, String, Bool, false, not, ◌&&◌, Option, none, some, List, ℤ, pos, ◌==ℤ◌, ◌==◌, leb, ltb,
  str_eq, str_ℕ, ◌<+>◌, rstrip, if◌then◌else◌, Exception, class_name, message, runtime_error,
  Result, ok, raise, ◌>>=◌,
}
use ars_solana.Json.{Json, int, string, object, end, field, get, or_default, to_int}
use ars_solana.Events.{ArsEvent}
use ars_solana.X402.Lookup.{Response}
use ars_solana.Conformance.{StateVector, IllegalVector, ViewBondVector, ConformanceReport, harness}
use ars_solana.Conformance.Vectors.{state_vectors, illegal_vectors, loaded_vectors}
use ars_solana.Conformance.Dump.{log_json}
use ars_solana.Conformance.SelfTest.{compare_hex}

-- `payload.get("state") == expected`
abbrev pub is_text : Json → String → Bool
is_text (string t) expected = str_eq t expected
is_text v expected = false

-- `{"events": [...]}`
abbrev pub events_body : List ArsEvent → Json
events_body events = object (field "events" (log_json events) end)

-- `{"min_bond": ..., "min_score": ...}`
abbrev pub bond_body : ViewBondVector → Json
bond_body v =
    object (field "min_bond" (int v.min_bond_atomic) (field "min_score" (int v.min_score) end))

-- `400 <= resp.status_code < 500`
abbrev pub is_client_error : ℕ → Bool
is_client_error status = leb 400 status && ltb status 500

-- `int` of a text and `str` of a JSON value are Python's.
module _ (parse_int : String → Result ℤ) (str_json : Json → String)
    (post : String → Json → Result Response) (base : String) where
  abbrev transport : String → Exception → Option String
  transport name e = some (name <+> ": transport " <+> class_name e <+> ": " <+> message e)

  -- The body of a `try` whose exceptions are failures of the vector.
  abbrev catching : String → Result (Option String) → Option String
  catching name (ok failure) = failure
  catching name (raise e) = transport name e

  abbrev got_text : StateVector → Json → Json → Option String
  got_text v state released =
      some (v.name <+> ": got state=" <+> str_json state <+> ", released=" <+> str_json released)

  -- The comparison of a reply to a log; the amount is read only if the state is the expected one.
  unfoldable pub compare_reply : StateVector → Json → Json → Result (Option String)
  compare_reply v state released =
      if is_text state v.expected_state
      then (to_int parse_int (or_default released (int (pos 0))) >>= λ amount.
          ok (if amount ==ℤ v.expected_released_atomic then none else got_text v state released))
      else ok (got_text v state released)

  unfoldable pub state_reply : StateVector → Response → Result (Option String)
  unfolding get str_ℕ compare_reply
  state_reply v resp =
      if not (resp.status_code == 200)
      then ok (some (v.name <+> ": HTTP " <+> str_ℕ resp.status_code))
      else (resp.json >>= λ payload. get payload "state" >>= λ state.
          get payload "released_atomic" >>= λ released. compare_reply v state released)

  unfoldable pub http_state_failure : StateVector → Option String
  unfolding state_reply log_json
  http_state_failure v =
      catching v.name (post (base <+> "/replay") (events_body v.log) >>= λ resp. state_reply v resp)

  abbrev illegal_reply : IllegalVector → Response → Option String
  illegal_reply v resp =
      if is_client_error resp.status_code
      then none
      else some (v.name <+> ": expected 4xx, got " <+> str_ℕ resp.status_code)

  unfoldable pub http_illegal_failure : IllegalVector → Option String
  unfolding log_json str_ℕ
  http_illegal_failure v =
      catching v.name
        (post (base <+> "/replay") (events_body v.log) >>= λ resp. ok (illegal_reply v resp))

  unfoldable pub bond_reply : ViewBondVector → Response → Result (Option String)
  unfolding get str_ℕ
  bond_reply v resp =
      if not (resp.status_code == 200)
      then ok (some (v.name <+> ": HTTP " <+> str_ℕ resp.status_code))
      else (resp.json >>= λ payload. get payload "data_hex" >>= λ hex.
          ok (compare_hex v (str_json (or_default hex (string "")))))

  unfoldable pub http_bond_failure : ViewBondVector → Option String
  unfolding bond_reply
  http_bond_failure v =
      catching v.name (post (base <+> "/view_bond") (bond_body v) >>= λ resp. bond_reply v resp)

  unfoldable pub run_http : Result ConformanceReport
  unfolding harness http_state_failure http_illegal_failure http_bond_failure
  run_http =
      harness state_vectors illegal_vectors loaded_vectors http_state_failure http_illegal_failure
        (λ v. ok (http_bond_failure v))

-- The import of `requests` may fail.
unfoldable pub run_http_transport :
    (parse_int : String → Result ℤ)
    → (str_json : Json → String) → Option (String → Json → Result Response)
    → (endpoint : String) → Result ConformanceReport
unfolding run_http rstrip
run_http_transport parse_int str_json none endpoint =
    raise (runtime_error "HTTP transport requires the 'requests' package. pip install requests")
run_http_transport parse_int str_json (some post) endpoint =
    run_http parse_int str_json post (rstrip 0x2f endpoint)
