-- ===== src/Conformance/Dump.antt =====
-- `as_json` of conformance.py, and an event's `__dict__`: its fields in the order of the class.
use ars_solana.Prelude.{String, Option, none, some, List, [], ◌∷◌, map}
use ars_solana.Json.{
  Json, null, boolean, int, string, array, object, Items, nil, cons, Fields, end, field,
}
use ars_solana.Events.{
  ArsEvent, job_opened, underwriting_started, underwriting_decided, principal_released, Outcome,
  success, failed, Resolution, no_dispute, dispute_upheld, dispute_rejected, event_type,
  event_job_id, event_at,
}
use ars_solana.Conformance.{StateVector, IllegalVector, ViewBondVector}
use ars_solana.Conformance.Vectors.{state_vectors, illegal_vectors}

abbrev pub outcome_name : Outcome → String
outcome_name success = "success"
outcome_name failed = "failed"

abbrev pub resolution_name : Resolution → String
resolution_name no_dispute = "no_dispute"
resolution_name dispute_upheld = "dispute_upheld"
resolution_name dispute_rejected = "dispute_rejected"

abbrev pub optional : Option String → Json
optional none = null
optional (some text) = string text

-- The fields of a class between `at` and `type`.
abbrev pub own_fields : ArsEvent → Fields → Fields
own_fields (job_opened e) rest =
    field "agent" (string e.agent) (
      field "requestor" (string e.requestor) (field "exposure_atomic" (int e.exposure_atomic) rest))
own_fields (underwriting_started e) rest = rest
own_fields (underwriting_decided e) rest =
    field "passed" (boolean e.passed) (field "failure_code" (optional e.failure_code) rest)
own_fields (principal_released e) rest = field "amount_atomic" (int e.amount_atomic) rest
own_fields (ArsEvent.evidence_submitted e) rest =
    field "action_hash" (string e.action_hash)
      (field "outcome" (string (outcome_name e.outcome)) rest)
own_fields (ArsEvent.disputed e) rest = field "claim" (string e.claim) rest
own_fields (ArsEvent.closed e) rest =
    field "resolution" (string (resolution_name e.resolution)) rest

-- `e.__dict__`
unfoldable pub event_dict : ArsEvent → Json
event_dict e = object (
    field "job_id" (string (event_job_id e))
      (field "at" (int (event_at e)) (own_fields e (field "type" (string (event_type e)) end))))

abbrev pub items : List Json → Items
items [] = nil
items (v ∷ vs) = cons v (items vs)

-- `[e.__dict__ for e in v.log]`
unfoldable pub log_json : List ArsEvent → Json
unfolding event_dict
log_json events = array (items (map event_dict events))

abbrev pub state_json : StateVector → Json
state_json v = object (
    field "name" (string v.name) (
      field "expected_state" (string v.expected_state) (
        field "expected_released_atomic" (int v.expected_released_atomic)
          (field "log" (log_json v.log) end))))

abbrev pub illegal_json : IllegalVector → Json
illegal_json v = object (field "name" (string v.name) (field "log" (log_json v.log) end))

abbrev pub bond_json : ViewBondVector → Json
bond_json v = object (
    field "name" (string v.name) (
      field "min_bond_atomic" (int v.min_bond_atomic) (
        field "min_score" (int v.min_score)
          (field "expected_data_hex" (string v.expected_data_hex) end))))

unfoldable pub as_json : List ViewBondVector → Json
unfolding log_json
as_json bonds = object (
    field "profile" (string "ARS-Solana Profile v0.1") (
      field "state_vectors" (array (items (map state_json state_vectors))) (
        field "illegal_vectors" (array (items (map illegal_json illegal_vectors)))
          (field "view_bond_vectors" (array (items (map bond_json bonds))) end))))
