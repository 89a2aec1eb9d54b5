-- ===== src/Ingest.antt =====
-- src/ingest.ts: from a decoded event of the chain to an event of a job. The payload's type comes
-- from the package @telaro/sdk: the constructors here are the event names that the code handles,
-- with the fields that it reads, and `other` is every other name. A key of that package is a
-- parameter, with its `toBase58`.
pub mod Feeds
mod Tests
use ars_solana.Prelude.{
  ℕ, String, Bool, true, false, ◌||◌, Option, none, some, List, ℤ, ◌==◌, str_eq, hex_text,
  if◌then◌else◌,
}
use ars_solana.Events.{
  ArsEvent, principal_released, success, failed, Resolution, dispute_upheld, dispute_rejected,
}

-- Numbers of the payload are those of its bytes, so never negative.
pub data DecodedEventPayload (Pubkey : Type 0) : Type 0 where
  action_recorded : (action_hash : List ℕ) → (outcome : ℕ) → DecodedEventPayload Pubkey
  claim_submitted : (claim : Pubkey) → DecodedEventPayload Pubkey
  claim_resolved : (status : ℕ) → DecodedEventPayload Pubkey
  arbiter_ruled : (ruling : ℕ) → DecodedEventPayload Pubkey
  credit_drawn : (amount : ℤ) → DecodedEventPayload Pubkey
  other : (name : String) → DecodedEventPayload Pubkey

pub record IngestContext : Type 0 where
  pub at : ℤ
  pub job_id : Option String

abbrev claim_status_resolution : ℕ → Resolution
claim_status_resolution status =
    if status == 3 || status == 7 then dispute_rejected else dispute_upheld

-- `if (!ctx.jobId) return null`, and what follows it.
abbrev with_job_id : Option String → (String → ArsEvent) → Option ArsEvent
with_job_id none event = none
with_job_id (some job_id) event = if str_eq job_id "" then none else some (event job_id)

unfoldable pub to_ars_event :
    {Pubkey : Type 0}
    → (Pubkey → String)
    → DecodedEventPayload Pubkey
    → IngestContext
    → Option ArsEvent
unfolding hex_text
to_ars_event to_base58 (action_recorded action_hash outcome) ctx =
    let job_id = hex_text action_hash in
    some (
      ArsEvent.evidence_submitted (record {
        job_id = job_id;
        at = ctx.at;
        action_hash = job_id;
        outcome = if outcome == 0 then success else failed;
      }))
to_ars_event to_base58 (claim_submitted claim) ctx =
    with_job_id ctx.job_id
      λ job_id. ArsEvent.disputed (record { job_id = job_id; at = ctx.at; claim = to_base58 claim })
to_ars_event to_base58 (claim_resolved status) ctx = with_job_id ctx.job_id λ job_id.
    ArsEvent.closed
      (record { job_id = job_id; at = ctx.at; resolution = claim_status_resolution status })
to_ars_event to_base58 (arbiter_ruled ruling) ctx = with_job_id ctx.job_id λ job_id.
    ArsEvent.closed (record {
      job_id = job_id;
      at = ctx.at;
      resolution = if ruling == 1 then dispute_rejected else dispute_upheld;
    })
to_ars_event to_base58 (credit_drawn amount) ctx =
    with_job_id ctx.job_id
      λ job_id. principal_released (record { job_id = job_id; at = ctx.at; amount_atomic = amount })
to_ars_event to_base58 (other name) ctx = none
