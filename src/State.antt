-- ===== src/State.antt =====
-- python/src/telaro_ars/state.py: the principal-track state machine. A raised exception is a
-- `Result`; the job that is `None` before the first event is an `Option`.
pub mod Lifecycle
pub mod Replay
pub mod Shape
pub mod Typescript
pub mod Underwritten
pub mod Progress
mod Tests
use ars_solana.Prelude.{
  String, Bool, true, false, ◌||◌, not, Option, none, some, List, [], ◌∷◌, ℤ, pos, ◌+ℤ◌, str_eq,
  ◌<+>◌, if◌then◌else◌, Result, ok, raise, ◌>>=◌, ars_transition_error,
}
use ars_solana.Events.{
  JobOpened, ArsEvent, job_opened, underwriting_started, underwriting_decided, principal_released,
  event_type, event_job_id, event_at,
}

pub data PrincipalState : Type 0 where
  await_underwriting underwriting rejected releasable executing : PrincipalState
  evidence_submitted disputed closed : PrincipalState

-- The literal that stands for the state.
abbrev pub state_name : PrincipalState → String
state_name await_underwriting = "AWAIT_UNDERWRITING"
state_name underwriting = "UNDERWRITING"
state_name rejected = "REJECTED"
state_name releasable = "RELEASABLE"
state_name executing = "EXECUTING"
state_name evidence_submitted = "EVIDENCE_SUBMITTED"
state_name disputed = "DISPUTED"
state_name closed = "CLOSED"

abbrev pub is_terminal : PrincipalState → Bool
is_terminal rejected = true
is_terminal closed = true
is_terminal _ = false

pub record Job : Type 0 where
  pub job_id : String
  pub agent : String
  pub requestor : String
  pub exposure_atomic : ℤ
  pub state : PrincipalState
  pub released_atomic : ℤ
  pub last_event_at : ℤ

abbrev error {ℓ} : {A : Type ℓ} → String → Result A
error m = raise (ars_transition_error m)

-- The first branch: a `JobOpened` is accepted only where there is no job.
open_job : Option Job → JobOpened → Result Job
open_job (some job) e = error ("JobOpened for " <+> e.job_id <+> ": job already exists")
open_job none e = ok (record {
  job_id = e.job_id;
  agent = e.agent;
  requestor = e.requestor;
  exposure_atomic = e.exposure_atomic;
  state = await_underwriting;
  released_atomic = pos 0;
  last_event_at = e.at;
})

-- The nested function `_to`, without a patch.
abbrev to : Job → ArsEvent → PrincipalState → Result Job
to job event state = ok (record job { state = state; last_event_at = event_at event })

-- The nested function `_illegal`.
abbrev illegal : Job → ArsEvent → Result Job
illegal job event =
    error (event_type event <+> " is not allowed in state " <+> state_name job.state)

abbrev is_in : PrincipalState → PrincipalState → Bool
is_in await_underwriting await_underwriting = true
is_in underwriting underwriting = true
is_in rejected rejected = true
is_in releasable releasable = true
is_in executing executing = true
is_in evidence_submitted evidence_submitted = true
is_in disputed disputed = true
is_in closed closed = true
is_in _ _ = false

-- The branches by the class of the event, on a job that is live and has the event's id.
transition : Job → ArsEvent → Result Job
transition job (job_opened e) = open_job (some job) e
transition job (underwriting_started e) =
    let event = underwriting_started e in
    if not (is_in job.state await_underwriting)
    then illegal job event
    else to job event underwriting
transition job (underwriting_decided e) =
    let event = underwriting_decided e in
    if not (is_in job.state underwriting)
    then illegal job event
    else to job event (if e.passed then releasable else rejected)
transition job (principal_released e) =
    let event = principal_released e in
    if not (is_in job.state releasable || is_in job.state executing)
    then illegal job event
    else ok (record job {
      state = executing;
      last_event_at = e.at;
      released_atomic = job.released_atomic +ℤ e.amount_atomic;
    })
transition job (ArsEvent.evidence_submitted e) =
    let event = ArsEvent.evidence_submitted e in
    if not (is_in job.state executing) then illegal job event else to job event evidence_submitted
transition job (ArsEvent.disputed e) =
    let event = ArsEvent.disputed e in
    if not (is_in job.state evidence_submitted) then illegal job event else to job event disputed
transition job (ArsEvent.closed e) =
    let event = ArsEvent.closed e in
    if not (is_in job.state evidence_submitted || is_in job.state disputed)
    then illegal job event
    else to job event closed

-- The three checks that come before the branches: a job exists, its id is the event's, it is live.
checked : Option Job → ArsEvent → Result Job
unfolding transition open_job
checked none event = error (event_type event <+> " for unknown job " <+> event_job_id event)
checked (some job) event =
    if not (str_eq job.job_id (event_job_id event))
    then error ("event job_id " <+> event_job_id event <+> " does not match job " <+> job.job_id)
    else if is_terminal job.state
    then error (
        event_type event
        <+> ": job "
        <+> job.job_id
        <+> " is terminal ("
        <+> state_name job.state
        <+> ")")
    else transition job event

unfoldable pub apply_event : Option Job → ArsEvent → Result Job
unfolding open_job checked
apply_event job (job_opened e) = open_job job e
apply_event job event = checked job event

-- The loop of `replay`, from any job on.
unfoldable pub replay_from : Option Job → List ArsEvent → Result (Option Job)
replay_from job [] = ok job
replay_from job (event ∷ events) = do next ← apply_event job event; replay_from (some next) events

-- What `replay` does after its loop.
abbrev pub finish : Option Job → Result Job
finish none = error "cannot replay an empty event log"
finish (some job) = ok job

unfoldable pub replay : List ArsEvent → Result Job
unfolding replay_from
replay events = do job ← replay_from none events; finish job
