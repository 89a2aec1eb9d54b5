-- ===== src/Store/Refines.antt =====
-- `append` (src/store.ts) against a store that is only a function from job ids to logs.
use ars_solana.Prelude.{
  String, ◌≡◌, refl, sym, ap, ◌∙◌, inl, inr, List, [], ◌∷◌, ◌++◌, Result, ok, ◌>>=◌, >>=-eq-ok,
  >>=_assoc, ok-injective, str_eq, if◌then◌else◌, Bool-cases,
}
use mathlib.Core.Path.{fun_ext}
use text.Mathlib.TextEquality.{eq_iff}
use ars_solana.Prelude.Entries.{set, get-set}
use ars_solana.Events.{ArsEvent, event_job_id}
use ars_solana.State.Typescript.{apply_event_ts, replay_ts}
use ars_solana.Store.{InMemoryEventStore, derived, append, log}
use ars_solana.Store.Replays.{replay_ts-append_event}

-- The store with the event at the end of its job's log.
abbrev pub written : InMemoryEventStore → ArsEvent → InMemoryEventStore
written store event =
    let job_id = event_job_id event in
    record { logs = set job_id (log store job_id ++ event ∷ []) store.logs }

-- The logs after an event, as a function.
abbrev pub extended : (String → List ArsEvent) → ArsEvent → String → List ArsEvent
extended logs event job_id =
    if str_eq (event_job_id event) job_id then logs job_id ++ event ∷ [] else logs job_id

-- What a store promises: the log with the event at its end must replay, and then it is the new log.
abbrev pub append_to : (String → List ArsEvent) → ArsEvent → Result (String → List ArsEvent)
append_to logs event = do
  job ← replay_ts (logs (event_job_id event) ++ event ∷ [])
  ok (extended logs event)

pub append-eq :
    (store : InMemoryEventStore) (event : ArsEvent)
    → append store event ≡ (
        replay_ts (log store (event_job_id event) ++ event ∷ []) >>= λ job.
        ok (written store event))
unfolding append log
append-eq store event =
    let existing = log store (event_job_id event) in
    sym (>>=_assoc (derived existing) (λ job. apply_event_ts job event) _)
    ∙ ap (λ r. r >>= λ job. ok (written store event)) (sym (replay_ts-append_event existing event))

pub append_writes :
    (store next : InMemoryEventStore) (event : ArsEvent)
    → append store event ≡ ok next
    → next ≡ written store event
append_writes store next event h =
    let replayed = replay_ts (log store (event_job_id event) ++ event ∷ []) in
    let (job, p, q) =
      >>=-eq-ok replayed (λ job. ok (written store event)) (sym (append-eq store event) ∙ h) in
    sym (ok-injective q)

pub log-written :
    (store : InMemoryEventStore) (event : ArsEvent) (job_id : String)
    → log (written store event) job_id ≡ extended (log store) event job_id
unfolding log
log-written store event job_id = elim (Bool-cases (str_eq (event_job_id event) job_id)) [
  | inl p ↦ rw (get-set, p) (rw ((eq_iff _ _).0 p) refl)
  | inr p ↦ rw (get-set, p) refl
]

-- On every store and event, `append` returns exactly where the log of the event's job, with the
-- event at its end, replays, and else raises what that replay raises; after it the log of that job
-- has the event at its end, and the log of every other job is as before.
pub append_refines :
    (store : InMemoryEventStore) (event : ArsEvent)
    → (append store event >>= λ next. ok (log next)) ≡ append_to (log store) event
append_refines store event =
    ap (λ r. r >>= λ next. ok (log next)) (append-eq store event)
    ∙ >>=_assoc (replay_ts (log store (event_job_id event) ++ event ∷ [])) _ _
    ∙ ap (λ logs. replay_ts (log store (event_job_id event) ++ event ∷ []) >>= λ job. ok logs)
        (fun_ext (log-written store event))
