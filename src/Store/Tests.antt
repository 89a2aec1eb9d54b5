-- ===== src/Store/Tests.antt =====
-- Two jobs whose events arrive mixed, stored, and the store's theorems at them.
use mathlib.Core.List.{Nodup}
use ars_solana.Prelude.{
  String, ◌≡◌, ◌↔◌, ◌⊎◌, refl, none, some, List, [], ◌∷◌, pos, ok, raise, ars_transition_error,
  ◌>>=◌,
}
use ars_solana.Events.{ArsEvent, job_opened, underwriting_started}
use ars_solana.State.{Job, await_underwriting}
use ars_solana.State.Typescript.{apply_event_ts, replay_ts}
use ars_solana.Store.{InMemoryEventStore, empty, append, log, job, job_ids}
use ars_solana.Store.Refines.{append_to, append_refines}
use ars_solana.Store.Valid.{append_all, job-append_all}
use ars_solana.Store.Interleaving.{events_of, IsLog, append_all_iff}
use ars_solana.Store.Jobs.{opened_ids, job_ids-append_all}

abbrev opening : String → ArsEvent
opening job_id =
    job_opened (record {
      job_id = job_id;
      at = pos 1;
      agent = "A";
      requestor = "D";
      exposure_atomic = pos 9;
    })

abbrev starting : ArsEvent
starting = underwriting_started (record { job_id = "j1"; at = pos 2 })

abbrev mixed : List ArsEvent
mixed = opening "j1" ∷ opening "j2" ∷ starting ∷ []

abbrev stored : InMemoryEventStore
stored = record { logs = ("j1", opening "j1" ∷ starting ∷ []) ∷ ("j2", opening "j2" ∷ []) ∷ [] }

abbrev opened_job : Job
opened_job = record {
  job_id = "j2";
  agent = "A";
  requestor = "D";
  exposure_atomic = pos 9;
  state = await_underwriting;
  released_atomic = pos 0;
  last_event_at = pos 1;
}

store_mixed : append_all empty mixed ≡ ok stored
unfolding append apply_event_ts replay_ts
store_mixed = refl

job-stored : job stored "j2" ≡ ok (some opened_job)
unfolding job replay_ts
job-stored = refl

job_unknown : job stored "j3" ≡ ok none
unfolding job
job_unknown = refl

-- A second opening never reaches the log.
reopening :
    append stored (opening "j2")
    ≡ raise (ars_transition_error "JobOpened for j2: job already exists")
unfolding append apply_event_ts replay_ts
reopening = refl

append_refines_example :
    (append stored (opening "j2") >>= λ next. ok (log next)) ≡ append_to (log stored) (opening "j2")
append_refines_example = append_refines stored (opening "j2")

job-append_all_example :
    ((log stored "j1" ≡ []) × (job stored "j1" ≡ ok none))
    ⊎ ((current : Job) × (replay_ts (log stored "j1") ≡ ok current)
        × (job stored "j1" ≡ ok (some current))
        × (current.job_id ≡ "j1"))
job-append_all_example = job-append_all mixed stored "j1" store_mixed

append_all_iff_example :
    ((store : InMemoryEventStore) × (append_all empty mixed ≡ ok store)
      × ((job_id : String) → log store job_id ≡ events_of job_id mixed))
    ↔ ((job_id : String) → IsLog (events_of job_id mixed))
append_all_iff_example = append_all_iff mixed

job_ids-append_all_example : (job_ids stored ≡ opened_ids mixed) × Nodup (job_ids stored)
job_ids-append_all_example = job_ids-append_all mixed stored store_mixed
