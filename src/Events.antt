-- ===== src/Events.antt =====
-- python/src/telaro_ars/events.py: the principal-track events. Each dataclass is a record, and
-- `ArsEvent`, the union, is a data type with a constructor for each of them.
use ars_solana.Prelude.{String, Bool, Option, ℤ}

pub record JobOpened : Type 0 where
  pub job_id : String
  pub at : ℤ
  pub agent : String
  pub requestor : String
  pub exposure_atomic : ℤ

pub record UnderwritingStarted : Type 0 where
  pub job_id : String
  pub at : ℤ

pub record UnderwritingDecided : Type 0 where
  pub job_id : String
  pub at : ℤ
  pub passed : Bool
  pub failure_code : Option String

pub record PrincipalReleased : Type 0 where
  pub job_id : String
  pub at : ℤ
  pub amount_atomic : ℤ

pub data Outcome : Type 0 where
  success failed : Outcome

pub record EvidenceSubmitted : Type 0 where
  pub job_id : String
  pub at : ℤ
  pub action_hash : String
  pub outcome : Outcome

pub record Disputed : Type 0 where
  pub job_id : String
  pub at : ℤ
  pub claim : String

pub data Resolution : Type 0 where
  no_dispute dispute_upheld dispute_rejected : Resolution

pub record Closed : Type 0 where
  pub job_id : String
  pub at : ℤ
  pub resolution : Resolution

pub data ArsEvent : Type 0 where
  job_opened : JobOpened → ArsEvent
  underwriting_started : UnderwritingStarted → ArsEvent
  underwriting_decided : UnderwritingDecided → ArsEvent
  principal_released : PrincipalReleased → ArsEvent
  evidence_submitted : EvidenceSubmitted → ArsEvent
  disputed : Disputed → ArsEvent
  closed : Closed → ArsEvent

-- The field `type` of each class.
abbrev pub event_type : ArsEvent → String
event_type (job_opened e) = "JobOpened"
event_type (underwriting_started e) = "UnderwritingStarted"
event_type (underwriting_decided e) = "UnderwritingDecided"
event_type (principal_released e) = "PrincipalReleased"
event_type (evidence_submitted e) = "EvidenceSubmitted"
event_type (disputed e) = "Disputed"
event_type (closed e) = "Closed"

-- The fields that all classes have.
abbrev pub event_job_id : ArsEvent → String
event_job_id (job_opened e) = e.job_id
event_job_id (underwriting_started e) = e.job_id
event_job_id (underwriting_decided e) = e.job_id
event_job_id (principal_released e) = e.job_id
event_job_id (evidence_submitted e) = e.job_id
event_job_id (disputed e) = e.job_id
event_job_id (closed e) = e.job_id

abbrev pub event_at : ArsEvent → ℤ
event_at (job_opened e) = e.at
event_at (underwriting_started e) = e.at
event_at (underwriting_decided e) = e.at
event_at (principal_released e) = e.at
event_at (evidence_submitted e) = e.at
event_at (disputed e) = e.at
event_at (closed e) = e.at
