-- ===== src/Store/Interleaving.antt =====
-- Events of several jobs, mixed and appended one after the other (src/store.ts).
use ars_solana.Prelude.{
  String, ◌≡◌, refl, sym, ap, ◌∙◌, ◌↔◌, ◌⊎◌, inl, inr, List, [], ◌∷◌, ◌++◌, ok, ◌>>=◌, >>=-eq-ok,
  ok-injective, str_eq, if◌then◌else◌, Bool-cases,
}
use mathlib.Core.List.{append_assoc, append-nil}
use text.Mathlib.TextPositions.{eq_refl}
use ars_solana.Events.{ArsEvent, event_job_id}
use ars_solana.State.{Job}
use ars_solana.State.Typescript.{replay_ts}
use ars_solana.Store.{InMemoryEventStore, empty, append, log}
use ars_solana.Store.Replays.{replay_ts_prefix}
use ars_solana.Store.Refines.{written, extended, append-eq, append_writes, log-written}
use ars_solana.Store.Valid.{append_all, append_all-IsValid, log_cases, IsValid}

-- The events of one job, in their order.
abbrev pub events_of : String → List ArsEvent → List ArsEvent
events_of job_id [] = []
events_of job_id (event ∷ events) =
    let rest = events_of job_id events in
    if str_eq (event_job_id event) job_id then event ∷ rest else rest

-- There is no event, or the events replay.
abbrev pub IsLog : List ArsEvent → Type 0
IsLog events = (events ≡ []) ⊎ ((job : Job) × (replay_ts events ≡ ok job))

extended-append :
    (logs : String → List ArsEvent) (event : ArsEvent) (events : List ArsEvent) (job_id : String)
    → extended logs event job_id ++ events_of job_id events
      ≡ logs job_id ++ events_of job_id (event ∷ events)
extended-append logs event events job_id = elim (Bool-cases (str_eq (event_job_id event) job_id)) [
  | inl p ↦ rw p (append_assoc (logs job_id) (event ∷ []) (events_of job_id events))
  | inr p ↦ rw p refl
]

log_after :
    (store next : InMemoryEventStore) (event : ArsEvent) (job_id : String)
    → append store event ≡ ok next
    → log next job_id ≡ extended (log store) event job_id
log_after store next event job_id h =
    ap (λ s. log s job_id) (append_writes store next event h) ∙ log-written store event job_id

log-append_all :
    (store last : InMemoryEventStore) (events : List ArsEvent) (job_id : String)
    → append_all store events ≡ ok last
    → log last job_id ≡ log store job_id ++ events_of job_id events
log-append_all store last [] job_id h =
    ap (λ s. log s job_id) (sym (ok-injective h)) ∙ sym (append-nil (log store job_id))
log-append_all store last (event ∷ events) job_id h =
    let (next, p, q) = >>=-eq-ok (append store event) _ h in
    log-append_all next last events job_id q
    ∙ ap (λ l. l ++ events_of job_id events) (log_after store next event job_id p)
    ∙ extended-append (log store) event events job_id

append_replayed :
    (store : InMemoryEventStore) (event : ArsEvent) (job : Job)
    → replay_ts (log store (event_job_id event) ++ event ∷ []) ≡ ok job
    → append store event ≡ ok (written store event)
append_replayed store event job h =
    append-eq store event ∙ ap (λ r. r >>= λ j. ok (written store event)) h

not_empty :
    (xs ys : List ArsEvent) (event : ArsEvent)
    → IsLog (xs ++ event ∷ ys)
    → (job : Job) × (replay_ts (xs ++ event ∷ ys) ≡ ok job)
not_empty [] ys event (inl p) = cc
not_empty (x ∷ xs) ys event (inl p) = cc
not_empty xs ys event (inr r) = r

append_all_accepts :
    (store : InMemoryEventStore) (events : List ArsEvent)
    → ((job_id : String) → IsLog (log store job_id ++ events_of job_id events))
    → (last : InMemoryEventStore) × (append_all store events ≡ ok last)
append_all_accepts store [] h = (store, refl)
append_all_accepts store (event ∷ events) h =
    let job_id = event_job_id event in
    let (job, whole) =
      not_empty (log store job_id) (events_of job_id events) event (rw eq_refl at (h job_id)) in
    let (earlier, first) =
      replay_ts_prefix (log store job_id) (events_of job_id events) event job whole in
    let accepted = append_replayed store event earlier first in
    let (last, p) =
      append_all_accepts (written store event) events
        (λ j. rw (log-written, extended-append (log store) event events j) (h j)) in
    (last, ap (λ r. r >>= λ next. append_all next events) accepted ∙ p)

log-IsLog :
    (store : InMemoryEventStore) → IsValid store → (job_id : String) → IsLog (log store job_id)
log-IsLog store v job_id = elim (log_cases store job_id v) [
  | inl (missing, e) ↦ inl e
  | inr (events, there, e, (job, p, i)) ↦ inr (job, rw e p)
]

-- A sequence of events of any jobs, mixed in any way, can be appended to a new store exactly if, for
-- each job id, the events with that id replay in their order or there are none, and then each log
-- of the store is the events with its id, in their order.
pub append_all_iff :
    (events : List ArsEvent)
    → ((store : InMemoryEventStore) × (append_all empty events ≡ ok store)
        × ((job_id : String) → log store job_id ≡ events_of job_id events))
      ↔ ((job_id : String) → IsLog (events_of job_id events))
unfolding log
append_all_iff events = (
  λ (store, p, logs) job_id.
      rw (← logs job_id) (log-IsLog store (append_all-IsValid empty store events tt p) job_id),
  λ h.
      let (store, p) = append_all_accepts empty events h in
      (store, p, λ job_id. log-append_all empty store events job_id p),
)
