-- ===== src/Ingest/Feeds.antt =====
-- What a caller reaches that feeds the events of `toArsEvent` (src/ingest.ts) to a store
-- (src/store.ts).
use ars_solana.Prelude.{
  ℤ, String, ◌≡◌, refl, inl, inr, Option, none, some, List, ok, str_eq, Bool-cases,
}
use mathlib.Core.Path.{subst}
use ars_solana.Events.{ArsEvent, event_job_id, event_at}
use ars_solana.State.Underwritten.{
  IsWork, BeginsPassed, Allows-IsUnderwritten, replay_ts-BeginsPassed,
}
use ars_solana.Store.{InMemoryEventStore, empty, append, log, job_ids}
use ars_solana.Store.Replays.{IsOpening}
use ars_solana.Store.Valid.{append_all, append_all-IsValid, append-Advances}
use ars_solana.Store.Jobs.{job_ids-append_later}
use ars_solana.Ingest.{
  DecodedEventPayload, action_recorded, claim_submitted, claim_resolved, arbiter_ruled,
  credit_drawn, other, IngestContext, with_job_id, to_ars_event,
}

-- A fact about every event that could be made holds of the one that was.
some_made :
    (P : ArsEvent → Type 0) (made event : ArsEvent) → P made → some made ≡ some event → P event
some_made P made event h p = let same : made ≡ event = cc in rw (← same) h

with_job_id_made :
    (P : ArsEvent → Type 0) (given : Option String) (make : String → ArsEvent) (event : ArsEvent)
    → ((job_id : String) → P (make job_id))
    → with_job_id given make ≡ some event
    → P event
with_job_id_made P none make event f h = cc
with_job_id_made P (some job_id) make event f h = elim (Bool-cases (str_eq job_id "")) [
  | inl p ↦ cc (rw p at h)
  | inr p ↦ some_made P (make job_id) event (f job_id) (rw p at h)
]

-- Work on a job at a time.
abbrev IsWorkAt : ℤ → ArsEvent → Type 0
IsWorkAt at event = IsWork event × (event_at event ≡ at)

module _ {Pubkey : Type 0} (to_base58 : Pubkey → String) where
  -- What is ingested is work on a job, at the time of the context.
  to_ars_event-IsWork :
      (payload : DecodedEventPayload Pubkey) (ctx : IngestContext) (event : ArsEvent)
      → to_ars_event to_base58 payload ctx ≡ some event
      → IsWorkAt ctx.at event
  unfolding to_ars_event
  to_ars_event-IsWork (action_recorded action_hash outcome) ctx event h =
      some_made (IsWorkAt ctx.at) _ event (tt, refl) h
  to_ars_event-IsWork (claim_submitted claim) ctx event h =
      with_job_id_made (IsWorkAt ctx.at) ctx.job_id _ event (λ job_id. (tt, refl)) h
  to_ars_event-IsWork (claim_resolved status) ctx event h =
      with_job_id_made (IsWorkAt ctx.at) ctx.job_id _ event (λ job_id. (tt, refl)) h
  to_ars_event-IsWork (arbiter_ruled ruling) ctx event h =
      with_job_id_made (IsWorkAt ctx.at) ctx.job_id _ event (λ job_id. (tt, refl)) h
  to_ars_event-IsWork (credit_drawn amount) ctx event h =
      with_job_id_made (IsWorkAt ctx.at) ctx.job_id _ event (λ job_id. (tt, refl)) h
  to_ars_event-IsWork (other name) ctx event h = cc

  -- When a store that a sequence of events led to accepts an ingested event, the store has no new
  -- job, and the log that the event was appended to begins with the opening, the start of
  -- underwriting and a passed verdict: what comes from the chain neither opens a job nor stands in
  -- for its underwriting.
  pub ingested_needs_verdict :
      (events : List ArsEvent) (store next : InMemoryEventStore)
      (payload : DecodedEventPayload Pubkey) (ctx : IngestContext) (event : ArsEvent)
      → append_all empty events ≡ ok store
      → to_ars_event to_base58 payload ctx ≡ some event
      → append store event ≡ ok next
      → (job_ids next ≡ job_ids store) × BeginsPassed (log store (event_job_id event))
  ingested_needs_verdict events store next payload ctx event reached ingested accepted =
      let (work, at) = to_ars_event-IsWork payload ctx event ingested in
      let later : ¬ IsOpening event = λ (e, p). subst IsWork p work in
      let v = append_all-IsValid empty store events tt reached in
      let (old, replayed, (new, (s, edge, q))) =
        append-Advances store next event v later accepted in
      (
        job_ids-append_later store next event v later accepted,
        replay_ts-BeginsPassed (log store (event_job_id event)) old replayed
            (Allows-IsUnderwritten edge work),
      )
