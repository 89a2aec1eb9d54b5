-- ===== src/Conformance/Tests.antt =====
-- The summary and the dump of conformance.py on concrete values.
use ars_solana.Prelude.{◌≡◌, refl, List, [], ◌∷◌, pos, some}
use ars_solana.Events.{ArsEvent, dispute_upheld}
use ars_solana.Conformance.Vectors.{state_vectors, illegal_vectors, loaded_vectors}
use ars_solana.Conformance.Dump.{log_json, as_json}
use ars_solana.Conformance.Decode.{read_log, read_dump}
use ars_solana.Conformance.Decode.RoundTrip.{read_dump-as_json}
use ars_solana.Conformance.{ConformanceReport, summary}

abbrev mixed : ConformanceReport
mixed = record {
  state_passed = 4;
  state_failed = "a: got state=CLOSED released=0" ∷ [];
  illegal_passed = 3;
  illegal_failed = [];
  view_bond_passed = 4;
  view_bond_failed = [];
}

summary-mixed :
    summary mixed
    ≡ "State vectors:       4/5\nIllegal vectors:     3/3\nview_bond vectors:   4/4\n  STATE FAIL: a: got state=CLOSED released=0"
unfolding summary
summary-mixed = refl

abbrev a_log : List ArsEvent
a_log =
    ArsEvent.disputed (record { job_id = "j1"; at = pos 6; claim = "C" })
    ∷ ArsEvent.closed (record { job_id = "j1"; at = pos 7; resolution = dispute_upheld })
    ∷ []

read_dump-as_json_example :
    (read_log (log_json a_log) ≡ some a_log)
    × (read_dump (as_json loaded_vectors) ≡ some (state_vectors, illegal_vectors, loaded_vectors))
read_dump-as_json_example = read_dump-as_json a_log loaded_vectors
