-- ===== src/Ingest/Tests.antt =====
-- Payloads of the chain turned into events, and one of them fed to a store.
use ars_solana.Prelude.{String, ◌≡◌, refl, true, none, some, List, [], ◌∷◌, ◌++◌, pos, ok, ◌+ℤ◌}
use ars_solana.Events.{
  ArsEvent, job_opened, underwriting_started, underwriting_decided, principal_released, success,
  dispute_rejected, event_job_id,
}
use ars_solana.State.Typescript.{apply_event_ts, replay_ts}
use ars_solana.State.Underwritten.{BeginsPassed}
use ars_solana.Store.{InMemoryEventStore, empty, append, log, job_ids}
use ars_solana.Store.Valid.{append_all}
use ars_solana.Ingest.{
  DecodedEventPayload, action_recorded, claim_resolved, IngestContext, to_ars_event,
}
use ars_solana.Ingest.Feeds.{ingested_needs_verdict}

abbrev draws : List ArsEvent
draws =
    job_opened (record {
      job_id = "0aff";
      at = pos 1;
      agent = "A";
      requestor = "D";
      exposure_atomic = pos 9;
    })
    ∷ underwriting_started (record { job_id = "0aff"; at = pos 2 })
    ∷ underwriting_decided
        (record { job_id = "0aff"; at = pos 3; passed = true; failure_code = none })
    ∷ principal_released (record { job_id = "0aff"; at = pos 4; amount_atomic = pos 5 })
    ∷ []

abbrev recorded : DecodedEventPayload String
recorded = action_recorded (10 ∷ 255 ∷ []) 0

abbrev block_time : IngestContext
block_time = record { at = pos 5; job_id = none }

abbrev evidence : ArsEvent
evidence =
    ArsEvent.evidence_submitted
      (record { job_id = "0aff"; at = pos 5; action_hash = "0aff"; outcome = success })

abbrev holding : List ArsEvent → InMemoryEventStore
holding events = record { logs = ("0aff", events) ∷ [] }

ingest_recorded : to_ars_event (λ key. key) recorded block_time ≡ some evidence
unfolding to_ars_event
ingest_recorded = refl

-- A claim event without a job id is dropped, and one that clears the agent closes the job so.
ingest_unknown_job : to_ars_event (λ (key : String). key) (claim_resolved 7) block_time ≡ none
unfolding to_ars_event
ingest_unknown_job = refl

ingest_resolved :
    to_ars_event
      (λ (key : String). key)
      (claim_resolved 7)
      (record { at = pos 6; job_id = some "0aff" })
    ≡ some (ArsEvent.closed (record { job_id = "0aff"; at = pos 6; resolution = dispute_rejected }))
unfolding to_ars_event
ingest_resolved = refl

stored : append_all empty draws ≡ ok (holding draws)
unfolding append apply_event_ts replay_ts ◌+ℤ◌
stored = refl

fed : append (holding draws) evidence ≡ ok (holding (draws ++ evidence ∷ []))
unfolding append apply_event_ts replay_ts ◌+ℤ◌
fed = refl

ingested_needs_verdict_example :
    (job_ids (holding (draws ++ evidence ∷ [])) ≡ job_ids (holding draws))
    × BeginsPassed (log (holding draws) (event_job_id evidence))
ingested_needs_verdict_example =
    ingested_needs_verdict (λ key. key) draws (holding draws) (holding (draws ++ evidence ∷ []))
      recorded block_time evidence stored ingest_recorded fed
