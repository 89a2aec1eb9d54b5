-- ===== src/Conformance/Decode.antt =====
-- A reader of the dump of conformance.py, as another implementation would write it: it looks fields
-- up by their names, in any order, and knows nothing of how the dump is written.
pub mod RoundTrip
use ars_solana.Prelude.{
  ◌≡◌, refl, ap, ◌∙◌, String, Bool, Option, none, some, List, [], ◌∷◌, map, ℤ, str_eq,
  if◌then◌else◌,
}
use ars_solana.Json.{
  Json, null, boolean, int, string, array, object, Items, nil, cons, Fields, end, field, lookup,
}
use ars_solana.Events.{
  ArsEvent, job_opened, underwriting_started, underwriting_decided, principal_released, Outcome,
  success, failed, Resolution, no_dispute, dispute_upheld, dispute_rejected,
}
use ars_solana.Conformance.{StateVector, IllegalVector, ViewBondVector}
use ars_solana.Conformance.Vectors.{state_vectors, illegal_vectors}
use ars_solana.Conformance.Dump.{
  outcome_name, resolution_name, optional, event_dict, items, log_json, state_json, illegal_json,
  bond_json, as_json,
}

infixl 5 ◌>>=◌
abbrev ◌>>=◌ {ℓ κ} : {A : Type ℓ} {B : Type κ} → Option A → (A → Option B) → Option B
none >>= f = none
some a >>= f = f a

abbrev text_of : Json → Option String
text_of (string t) = some t
text_of _ = none

abbrev int_of : Json → Option ℤ
int_of (int n) = some n
int_of _ = none

abbrev bool_of : Json → Option Bool
bool_of (boolean b) = some b
bool_of _ = none

abbrev optional_of : Json → Option (Option String)
optional_of null = some none
optional_of (string t) = some (some t)
optional_of _ = none

abbrev fields_of : Json → Option Fields
fields_of (object fs) = some fs
fields_of _ = none

abbrev outcome_of : String → Option Outcome
outcome_of t =
    if str_eq t "success" then some success else if str_eq t "failed" then some failed else none

abbrev resolution_of : String → Option Resolution
resolution_of t =
    if str_eq t "no_dispute"
    then some no_dispute
    else if str_eq t "dispute_upheld"
    then some dispute_upheld
    else if str_eq t "dispute_rejected"
    then some dispute_rejected
    else none

read_items {ℓ} : {A : Type ℓ} → (Json → Option A) → Items → Option (List A)
read_items read nil = some []
read_items read (cons v vs) = do x ← read v; xs ← read_items read vs; some (x ∷ xs)

abbrev read_list {ℓ} : {A : Type ℓ} → (Json → Option A) → Json → Option (List A)
read_list read (array vs) = read_items read vs
read_list read _ = none

module _ (fs : Fields) where
  abbrev text : String → Option String
  text key = text_of (lookup key fs)

  abbrev number : String → Option ℤ
  number key = int_of (lookup key fs)

  read_opened : (job_id : String) (at : ℤ) → Option ArsEvent
  unfolding lookup
  read_opened job_id at = do
    agent ← text "agent"
    requestor ← text "requestor"
    exposure ← number "exposure_atomic"
    some (
        job_opened (record {
          job_id = job_id;
          at = at;
          agent = agent;
          requestor = requestor;
          exposure_atomic = exposure;
        }))

  read_decided : (job_id : String) (at : ℤ) → Option ArsEvent
  unfolding lookup
  read_decided job_id at = do
    passed ← bool_of (lookup "passed" fs)
    code ← optional_of (lookup "failure_code" fs)
    some (
        underwriting_decided
          (record { job_id = job_id; at = at; passed = passed; failure_code = code }))

  read_released : (job_id : String) (at : ℤ) → Option ArsEvent
  unfolding lookup
  read_released job_id at = do
    amount ← number "amount_atomic"
    some (principal_released (record { job_id = job_id; at = at; amount_atomic = amount }))

  read_evidence : (job_id : String) (at : ℤ) → Option ArsEvent
  unfolding lookup
  read_evidence job_id at = do
    hash ← text "action_hash"
    name ← text "outcome"
    outcome ← outcome_of name
    some (
        ArsEvent.evidence_submitted
          (record { job_id = job_id; at = at; action_hash = hash; outcome = outcome }))

  read_disputed : (job_id : String) (at : ℤ) → Option ArsEvent
  unfolding lookup
  read_disputed job_id at = do
    claim ← text "claim"
    some (ArsEvent.disputed (record { job_id = job_id; at = at; claim = claim }))

  read_closed : (job_id : String) (at : ℤ) → Option ArsEvent
  unfolding lookup
  read_closed job_id at = do
    name ← text "resolution"
    resolution ← resolution_of name
    some (ArsEvent.closed (record { job_id = job_id; at = at; resolution = resolution }))

  -- By the type that the event says it has.
  read_as : (type : String) (job_id : String) (at : ℤ) → Option ArsEvent
  unfolding read_opened read_decided read_released read_evidence read_disputed read_closed
  read_as type job_id at =
      if str_eq type "JobOpened"
      then read_opened job_id at
      else if str_eq type "UnderwritingStarted"
      then some (underwriting_started (record { job_id = job_id; at = at }))
      else if str_eq type "UnderwritingDecided"
      then read_decided job_id at
      else if str_eq type "PrincipalReleased"
      then read_released job_id at
      else if str_eq type "EvidenceSubmitted"
      then read_evidence job_id at
      else if str_eq type "Disputed"
      then read_disputed job_id at
      else if str_eq type "Closed"
      then read_closed job_id at
      else none

pub read_event : Json → Option ArsEvent
unfolding lookup read_as
read_event v = do
  fs ← fields_of v
  type ← text fs "type"
  job_id ← text fs "job_id"
  at ← number fs "at"
  read_as fs type job_id at

pub read_log : Json → Option (List ArsEvent)
unfolding read_event read_items
read_log = read_list read_event

read_state : Json → Option StateVector
unfolding lookup read_log
read_state v = do
  fs ← fields_of v
  name ← text fs "name"
  state ← text fs "expected_state"
  released ← number fs "expected_released_atomic"
  log ← read_log (lookup "log" fs)
  some (record {
    name = name;
    log = log;
    expected_state = state;
    expected_released_atomic = released;
  })

read_illegal : Json → Option IllegalVector
unfolding lookup read_log
read_illegal v = do
  fs ← fields_of v
  name ← text fs "name"
  log ← read_log (lookup "log" fs)
  some (record { name = name; log = log })

read_bond : Json → Option ViewBondVector
unfolding lookup
read_bond v = do
  fs ← fields_of v
  name ← text fs "name"
  bond ← number fs "min_bond_atomic"
  score ← number fs "min_score"
  hex ← text fs "expected_data_hex"
  some (record { name = name; min_bond_atomic = bond; min_score = score; expected_data_hex = hex })

pub read_dump : Json → Option (List StateVector × List IllegalVector × List ViewBondVector)
unfolding lookup read_items read_state read_illegal read_bond
read_dump v = do
  fs ← fields_of v
  states ← read_list read_state (lookup "state_vectors" fs)
  illegals ← read_list read_illegal (lookup "illegal_vectors" fs)
  bonds ← read_list read_bond (lookup "view_bond_vectors" fs)
  some (states, illegals, bonds)
