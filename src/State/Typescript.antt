-- ===== src/State/Typescript.antt =====
-- src/state.ts, the TypeScript reference that state.py mirrors, over the same events and jobs. A
-- thrown `ARSTransitionError` is the same exception; a `number` or `bigint` is an integer, so times
-- are taken to be in the range where JavaScript's numbers are exact.
use ars_solana.Prelude.{
  ◌≡◌, refl, Bool, not, ◌&&◌, ◌||◌, Option, none, some, List, [], ◌∷◌, pos, ◌+ℤ◌, str_eq, ◌<+>◌,
  if◌then◌else◌, Result, ok, raise, ◌>>=◌, ars_transition_error, arith,
}
use ars_solana.Events.{
  ArsEvent, job_opened, underwriting_started, underwriting_decided, principal_released, event_type,
  event_job_id, event_at,
}
use ars_solana.State.{
  PrincipalState, await_underwriting, underwriting, rejected, releasable, executing,
  evidence_submitted, disputed, closed, state_name, is_in, Job, transition, apply_event,
  replay_from, finish, replay,
}

-- `a === b` on two states: their literals are the same text.
same_state : PrincipalState → PrincipalState → Bool
same_state a b = str_eq (state_name a) (state_name b)

-- `TERMINAL.has(state)`
abbrev is_terminal : PrincipalState → Bool
is_terminal s = same_state s rejected || same_state s closed

abbrev illegal : Job → ArsEvent → Result Job
illegal j event =
    raise (
      ars_transition_error
        (event_type event <+> " is not allowed in state " <+> state_name j.state))

-- `to(state)`, without a patch.
abbrev to : Job → ArsEvent → PrincipalState → Result Job
to j event state = ok (record j { state = state; last_event_at = event_at event })

-- The `switch` on the type of the event.
switch : Job → ArsEvent → Result Job
switch j (job_opened e) = illegal j (job_opened e)
switch j (underwriting_started e) =
    let event = underwriting_started e in
    if same_state j.state await_underwriting then to j event underwriting else illegal j event
switch j (underwriting_decided e) =
    let event = underwriting_decided e in
    if not (same_state j.state underwriting)
    then illegal j event
    else to j event (if e.passed then releasable else rejected)
switch j (principal_released e) =
    let event = principal_released e in
    if not (same_state j.state releasable) && not (same_state j.state executing)
    then illegal j event
    else ok (record j {
      released_atomic = j.released_atomic +ℤ e.amount_atomic;
      state = executing;
      last_event_at = e.at;
    })
switch j (ArsEvent.evidence_submitted e) =
    let event = ArsEvent.evidence_submitted e in
    if same_state j.state executing then to j event evidence_submitted else illegal j event
switch j (ArsEvent.disputed e) =
    let event = ArsEvent.disputed e in
    if same_state j.state evidence_submitted then to j event disputed else illegal j event
switch j (ArsEvent.closed e) =
    let event = ArsEvent.closed e in
    if same_state j.state evidence_submitted || same_state j.state disputed
    then to j event closed
    else illegal j event

-- The opening event, and the checks before the `switch`.
unfoldable pub apply_event_ts : Option Job → ArsEvent → Result Job
unfolding switch same_state
apply_event_ts (some job) (job_opened e) =
    raise (ars_transition_error ("JobOpened for " <+> e.job_id <+> ": job already exists"))
apply_event_ts none (job_opened e) = ok (record {
  job_id = e.job_id;
  agent = e.agent;
  requestor = e.requestor;
  exposure_atomic = e.exposure_atomic;
  state = await_underwriting;
  released_atomic = pos 0;
  last_event_at = e.at;
})
apply_event_ts none event =
    raise (ars_transition_error (event_type event <+> " for unknown job " <+> event_job_id event))
apply_event_ts (some job) event =
    if not (str_eq job.job_id (event_job_id event))
    then raise (
        ars_transition_error
          ("event jobId " <+> event_job_id event <+> " does not match job " <+> job.job_id))
    else if is_terminal job.state
    then raise (
        ars_transition_error (
          event_type event
          <+> ": job "
          <+> job.job_id
          <+> " is terminal ("
          <+> state_name job.state
          <+> ")"))
    else switch job event

unfoldable pub replay_from_ts : Option Job → List ArsEvent → Result (Option Job)
replay_from_ts job [] = ok job
replay_from_ts job (event ∷ events) = do
  next ← apply_event_ts job event
  replay_from_ts (some next) events

unfoldable pub replay_ts : List ArsEvent → Result Job
unfolding replay_from_ts apply_event_ts
replay_ts events = do job ← replay_from_ts none events; finish job

-- The value that a call returned, whatever the text of its error.
abbrev pub value {ℓ} : {A : Type ℓ} → Result A → Option A
value (ok a) = some a
value (raise x) = none

-- The literals of two states are equal exactly when the states are.
same_state-is_in : (a b : PrincipalState) → same_state a b ≡ is_in a b
unfolding same_state
same_state-is_in await_underwriting await_underwriting = refl
same_state-is_in underwriting underwriting = refl
same_state-is_in rejected rejected = refl
same_state-is_in releasable releasable = refl
same_state-is_in executing executing = refl
same_state-is_in evidence_submitted evidence_submitted = refl
same_state-is_in disputed disputed = refl
same_state-is_in closed closed = refl
same_state-is_in _ _ = refl

pub apply_event_agrees :
    (job : Option Job) (event : ArsEvent)
    → value (apply_event_ts job event) ≡ value (apply_event job event)
unfolding apply_event apply_event_ts transition
apply_event_agrees none (job_opened e) = refl
apply_event_agrees (some job) (job_opened e) = refl
apply_event_agrees none event = refl
apply_event_agrees (some job) event = ground (
  arith,
  same_state-is_in job.state await_underwriting,
  same_state-is_in job.state underwriting,
  same_state-is_in job.state rejected,
  same_state-is_in job.state releasable,
  same_state-is_in job.state executing,
  same_state-is_in job.state evidence_submitted,
  same_state-is_in job.state disputed,
  same_state-is_in job.state closed,
)

value->>= {ℓ κ} :
    {A : Type ℓ} {B : Type κ} (r s : Result A) (f g : A → Result B)
    → value r ≡ value s
    → ((a : A) → value (f a) ≡ value (g a))
    → value (r >>= f) ≡ value (s >>= g)
value->>= (ok a) (ok b) f g p h = cc (h a)
value->>= (raise x) (raise y) f g p h = refl
value->>= (ok a) (raise y) f g p h = cc
value->>= (raise x) (ok b) f g p h = cc

replay_from_agrees :
    (job : Option Job) (log : List ArsEvent)
    → value (replay_from_ts job log) ≡ value (replay_from job log)
unfolding replay_from replay_from_ts
replay_from_agrees job [] = refl
replay_from_agrees job (e ∷ es) =
    value->>= (apply_event_ts job e) (apply_event job e) _ _ (apply_event_agrees job e)
      (λ next. replay_from_agrees (some next) es)

-- On every event log the Python and the TypeScript implementation agree: both return the same job,
-- or both raise.
pub replay_agrees : (log : List ArsEvent) → value (replay_ts log) ≡ value (replay log)
unfolding replay replay_ts
replay_agrees log =
    value->>= (replay_from_ts none log) (replay_from none log) _ _ (replay_from_agrees none log)
      (λ job. refl)
