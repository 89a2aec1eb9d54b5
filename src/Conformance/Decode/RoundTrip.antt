-- ===== src/Conformance/Decode/RoundTrip.antt =====
-- The dump of conformance.py, read back.
use ars_solana.Prelude.{◌≡◌, refl, String, Option, none, some, List, [], ◌∷◌, map}
use ars_solana.Json.{Json, string, array, object, end, field}
use ars_solana.Events.{
  ArsEvent, job_opened, underwriting_started, underwriting_decided, principal_released, Outcome,
  success, failed, Resolution, no_dispute, dispute_upheld, dispute_rejected,
}
use ars_solana.Conformance.{StateVector, IllegalVector, ViewBondVector}
use ars_solana.Conformance.Vectors.{state_vectors, illegal_vectors}
use ars_solana.Conformance.Dump.{
  outcome_name, resolution_name, optional, event_dict, items, log_json, state_json, illegal_json,
  bond_json, as_json,
}
use ars_solana.Conformance.Decode.{
  optional_of, outcome_of, resolution_of, read_items, read_event, read_log, read_state,
  read_illegal, read_bond, read_dump,
}

module _ {ℓ} {A : Type ℓ} (write : A → Json) (read : Json → Option A) where
  read_items-map :
      ((a : A) → read (write a) ≡ some a)
      → (xs : List A) → read_items read (items (map write xs)) ≡ some xs
  unfolding read_items
  read_items-map back [] = refl
  read_items-map back (x ∷ xs) = rw (back x, read_items-map back xs) refl

optional_of-optional : (o : Option String) → optional_of (optional o) ≡ some o
optional_of-optional none = refl
optional_of-optional (some t) = refl

outcome_of-outcome_name : (o : Outcome) → outcome_of (outcome_name o) ≡ some o
outcome_of-outcome_name success = refl
outcome_of-outcome_name failed = refl

resolution_of-resolution_name : (r : Resolution) → resolution_of (resolution_name r) ≡ some r
resolution_of-resolution_name no_dispute = refl
resolution_of-resolution_name dispute_upheld = refl
resolution_of-resolution_name dispute_rejected = refl

read_event-event_dict : (e : ArsEvent) → read_event (event_dict e) ≡ some e
unfolding read_event event_dict
read_event-event_dict (job_opened e) = refl
read_event-event_dict (underwriting_started e) = refl
read_event-event_dict (underwriting_decided e) = rw (optional_of-optional e.failure_code) refl
read_event-event_dict (principal_released e) = refl
read_event-event_dict (ArsEvent.evidence_submitted e) = rw (outcome_of-outcome_name e.outcome) refl
read_event-event_dict (ArsEvent.disputed e) = refl
read_event-event_dict (ArsEvent.closed e) = rw (resolution_of-resolution_name e.resolution) refl

read_log-log_json : (log : List ArsEvent) → read_log (log_json log) ≡ some log
unfolding read_log log_json
read_log-log_json log = read_items-map event_dict read_event read_event-event_dict log

read_state-state_json : (v : StateVector) → read_state (state_json v) ≡ some v
unfolding read_state
read_state-state_json v = rw (read_log-log_json v.log) refl

read_illegal-illegal_json : (v : IllegalVector) → read_illegal (illegal_json v) ≡ some v
unfolding read_illegal
read_illegal-illegal_json v = rw (read_log-log_json v.log) refl

read_bond-bond_json : (v : ViewBondVector) → read_bond (bond_json v) ≡ some v
unfolding read_bond
read_bond-bond_json v = refl

-- The dump of any vectors.
abbrev dump_of : List StateVector → List IllegalVector → List ViewBondVector → Json
dump_of states illegals bonds = object (
    field "profile" (string "ARS-Solana Profile v0.1") (
      field "state_vectors" (array (items (map state_json states))) (
        field "illegal_vectors" (array (items (map illegal_json illegals)))
          (field "view_bond_vectors" (array (items (map bond_json bonds))) end))))

read_dump-dump_of :
    (states : List StateVector) (illegals : List IllegalVector) (bonds : List ViewBondVector)
    → read_dump (dump_of states illegals bonds) ≡ some (states, illegals, bonds)
unfolding read_dump
read_dump-dump_of states illegals bonds =
    rw
      (
        read_items-map state_json read_state read_state-state_json states,
        read_items-map illegal_json read_illegal read_illegal-illegal_json illegals,
        read_items-map bond_json read_bond read_bond-bond_json bonds,
      )
      refl

-- A reader that looks fields up by their names, and knows nothing of how they are written, regains
-- every log from what the dump and the bodies that are posted to an endpoint make of it, and
-- regains from the dump, whatever its encodings are, all the vectors of the suite with their names,
-- logs and expectations, in their order.
pub read_dump-as_json :
    (log : List ArsEvent) (bonds : List ViewBondVector)
    → (read_log (log_json log) ≡ some log)
      × (read_dump (as_json bonds) ≡ some (state_vectors, illegal_vectors, bonds))
unfolding as_json
read_dump-as_json log bonds =
    (read_log-log_json log, read_dump-dump_of state_vectors illegal_vectors bonds)
