-- ===== src/Store/Valid.antt =====
-- Which stores `append` (src/store.ts) can lead to.
use ars_solana.Prelude.{
  String, ◌≡◌, sym, ap, ◌∙◌, ◌⊎◌, inl, inr, none, some, List, [], ◌∷◌, ◌++◌, Result, ok, ◌>>=◌,
  >>=-eq-ok, ok-injective, Option-cases, All,
}
use ars_solana.Prelude.Entries.{get, All-set, All-get}
use ars_solana.Events.{ArsEvent, event_job_id}
use ars_solana.State.{Job}
use ars_solana.State.Lifecycle.{Advances}
use ars_solana.State.Typescript.{replay_ts}
use ars_solana.Store.{InMemoryEventStore, empty, derived, append, log, job}
use ars_solana.Store.Replays.{
  Replays, IsOpening, derived-Replays, replay_ts-append_event, first_event, later_event,
}
use ars_solana.Store.Refines.{written, append-eq}

-- Every entry of the store replays to a job with the entry's key.
abbrev pub IsValid : InMemoryEventStore → Type 0
IsValid store = All (λ (job_id, events). Replays job_id events) store.logs

abbrev IsMissing : InMemoryEventStore → String → Type 0
IsMissing store job_id = (get job_id store.logs ≡ none) × (log store job_id ≡ [])

abbrev IsThere : InMemoryEventStore → String → Type 0
IsThere store job_id =
    (events : List ArsEvent) × (get job_id store.logs ≡ some events)
    × (log store job_id ≡ events)
    × Replays job_id events

pub log_cases :
    (store : InMemoryEventStore) (job_id : String)
    → IsValid store
    → IsMissing store job_id ⊎ IsThere store job_id
unfolding log
log_cases store job_id v = elim (Option-cases (get job_id store.logs)) [
  | inl p ↦ inl (p, rw p)
  | inr (events, p) ↦ inr (events, p, rw p, All-get Replays job_id events store.logs v p)
]

-- An accepted event opens a job that is not there, or continues one that is.
abbrev pub Continues : InMemoryEventStore → ArsEvent → Type 0
Continues store event =
    ((get (event_job_id event) store.logs ≡ none) × IsOpening event)
    ⊎ ((events : List ArsEvent) × (get (event_job_id event) store.logs ≡ some events)
        × (¬ IsOpening event)
        × ((old : Job) × (next : Job) × (replay_ts events ≡ ok old) × Advances old event next))

-- What an accepted event says: whether it opened the job, and what its log replays to.
pub append-accepts :
    (store next : InMemoryEventStore) (event : ArsEvent)
    → IsValid store
    → append store event ≡ ok next
    → (next ≡ written store event)
      × Replays (event_job_id event) (log store (event_job_id event) ++ event ∷ [])
      × Continues store event
append-accepts store next event v h =
    let (job, p, q) = >>=-eq-ok _ _ (sym (append-eq store event) ∙ h) in
    let (current, r, a) =
      >>=-eq-ok _ _ (sym (replay_ts-append_event (log store (event_job_id event)) event) ∙ p) in
    let facts : Replays (event_job_id event) (log store (event_job_id event) ++ event ∷ [])
        × Continues store event =
      elim (log_cases store (event_job_id event) v) [
        | inl (missing, empty) ↦
            let (o, i) = first_event event job (rw (← ok-injective (sym r ∙ ap derived empty)) a) in
            ((job, p, i), inl (missing, o))
        | inr (events, there, e, (old, s, i)) ↦
            let from = ok-injective (sym r ∙ ap derived e ∙ derived-Replays events old s) in
            let (k, l, n, edge) = later_event old event job (rw (← from) a) in
            ((job, p, l ∙ k), inr (events, there, n, (old, job, s, edge)))
      ] in
    (sym (ok-injective q), facts.0, facts.1)

-- Appending a sequence of events, as a caller does that awaits each call before the next one.
abbrev pub append_all : InMemoryEventStore → List ArsEvent → Result InMemoryEventStore
append_all store [] = ok store
append_all store (event ∷ events) = do next ← append store event; append_all next events

pub append-IsValid :
    (store next : InMemoryEventStore) (event : ArsEvent)
    → IsValid store
    → append store event ≡ ok next
    → IsValid next
append-IsValid store next event v h =
    let (p, r, c) = append-accepts store next event v h in
    rw p (All-set Replays (event_job_id event) _ store.logs r v)

pub append_all-IsValid :
    (store last : InMemoryEventStore) (events : List ArsEvent)
    → IsValid store
    → append_all store events ≡ ok last
    → IsValid last
append_all-IsValid store last [] v h = rw (← ok-injective h) v
append_all-IsValid store last (event ∷ events) v h =
    let (next, p, q) = >>=-eq-ok (append store event) _ h in
    append_all-IsValid next last events (append-IsValid store next event v p) q

-- An accepted event that opens no job is an edge of the lifecycle from its job's state.
pub append-Advances :
    (store next : InMemoryEventStore) (event : ArsEvent)
    → IsValid store
    → ¬ IsOpening event
    → append store event ≡ ok next
    → (old : Job) × (replay_ts (log store (event_job_id event)) ≡ ok old)
      × ((new : Job) × Advances old event new)
unfolding log
append-Advances store next event v n h =
    let (p, r, continues) = append-accepts store next event v h in
    elim continues [
      | inl (missing, opening) ↦ absurd (n opening)
      | inr (events, there, m, (old, new, s, edge)) ↦ (old, rw there s, (new, edge))
    ]

-- In a store that a sequence of events led to, each job id has an empty log and no job, or else a
-- log that replays to the job that the store returns, which has that id: no read of the store can
-- raise.
pub job-append_all :
    (events : List ArsEvent) (store : InMemoryEventStore) (job_id : String)
    → append_all empty events ≡ ok store
    → ((log store job_id ≡ []) × (job store job_id ≡ ok none))
      ⊎ ((current : Job) × (replay_ts (log store job_id) ≡ ok current)
          × (job store job_id ≡ ok (some current))
          × (current.job_id ≡ job_id))
unfolding job
job-append_all events store job_id h =
    elim (log_cases store job_id (append_all-IsValid empty store events tt h)) [
      | inl (missing, e) ↦ inl (e, rw missing)
      | inr (stored, there, e, (current, p, i)) ↦
          inr (current, rw e p, rw there (derived-Replays stored current p), i)
    ]
