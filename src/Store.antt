-- ===== src/Store.antt =====
-- src/store.ts: the event store that checks each event before it stores it. A thrown
-- `ARSTransitionError` is the exception of a `Result`. The methods are `async` and await nothing, so
-- each runs to its end in one step; a `Map` is the list of its entries (Prelude/Entries), and what
-- an update of it leaves is the new store.
pub mod Replays
pub mod Refines
pub mod Valid
pub mod Interleaving
pub mod Jobs
mod Tests
use ars_solana.Prelude.{String, Option, none, some, List, [], ◌∷◌, ◌++◌, Result, ok, ◌>>=◌}
use ars_solana.Prelude.Entries.{get, set, keys}
use ars_solana.Events.{ArsEvent, event_job_id}
use ars_solana.State.{Job}
use ars_solana.State.Typescript.{apply_event_ts, replay_ts}

pub record InMemoryEventStore : Type 0 where
  pub logs : List (String × List ArsEvent)

-- A new store.
abbrev pub empty : InMemoryEventStore
empty = record { logs = [] }

-- `logs.get(jobId) ?? []`
abbrev or_empty : Option (List ArsEvent) → List ArsEvent
or_empty none = []
or_empty (some events) = events

-- `events.length > 0 ? replay(events) : null`
abbrev pub derived : List ArsEvent → Result (Option Job)
derived [] = ok none
derived (event ∷ events) = do job ← replay_ts (event ∷ events); ok (some job)

unfoldable pub append : InMemoryEventStore → ArsEvent → Result InMemoryEventStore
unfolding get set
append store event =
    let existing = or_empty (get (event_job_id event) store.logs) in
    do
      current ← derived existing
      next ← apply_event_ts current event
      ok (record { logs = set (event_job_id event) (existing ++ event ∷ []) store.logs })

unfoldable pub log : InMemoryEventStore → String → List ArsEvent
unfolding get
log store job_id = or_empty (get job_id store.logs)

abbrev job_of : Option (List ArsEvent) → Result (Option Job)
job_of none = ok none
job_of (some events) = derived events

unfoldable pub job : InMemoryEventStore → String → Result (Option Job)
unfolding get
job store job_id = job_of (get job_id store.logs)

unfoldable pub job_ids : InMemoryEventStore → List String
job_ids store = keys store.logs
