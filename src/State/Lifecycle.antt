-- ===== src/State/Lifecycle.antt =====
-- The lifecycle as a labelled transition system, and `apply_event` (state.py) against it.
use ars_solana.Prelude.{
  String, ◌≡◌, refl, sym, ◌∙◌, ◌↔◌, ◌⊎◌, inl, inr, true, false, Option, none, some, ℤ, pos, ◌+ℤ◌,
  +ℤ_zero, Exception, ok, raise, String, ap, str_eq, Option-cases, Raises, Raises-ne-ok,
  IsTransitionError, ◌≢◌, arith, Bool-cases, if◌then◌else◌,
}
use mathlib.Core.Path.{subst}
use text.Mathlib.TextEquality.{eq_iff}
use ars_solana.Events.{
  ArsEvent, UnderwritingStarted, UnderwritingDecided, PrincipalReleased, EvidenceSubmitted,
  Disputed, Closed, job_opened, underwriting_started, underwriting_decided, principal_released,
  success, no_dispute, event_job_id, event_at,
}
use ars_solana.State.{
  PrincipalState, await_underwriting, underwriting, rejected, releasable, executing,
  evidence_submitted, disputed, closed, Job, is_terminal, transition, apply_event,
}

-- Which event takes which state to which: the diagram of the package's README.
pub data Allows : PrincipalState → ArsEvent → PrincipalState → Type 0 where
  starts :
      {e : UnderwritingStarted} → Allows await_underwriting (underwriting_started e) underwriting
  passes :
      {e : UnderwritingDecided}
      → e.passed ≡ true
      → Allows underwriting (underwriting_decided e) releasable
  fails :
      {e : UnderwritingDecided}
      → e.passed ≡ false
      → Allows underwriting (underwriting_decided e) rejected
  releases : {e : PrincipalReleased} → Allows releasable (principal_released e) executing
  releases_again : {e : PrincipalReleased} → Allows executing (principal_released e) executing
  submits :
      {e : EvidenceSubmitted} → Allows executing (ArsEvent.evidence_submitted e) evidence_submitted
  disputes : {e : Disputed} → Allows evidence_submitted (ArsEvent.disputed e) disputed
  closes : {e : Closed} → Allows evidence_submitted (ArsEvent.closed e) closed
  closes_dispute : {e : Closed} → Allows disputed (ArsEvent.closed e) closed

-- The principal that an event draws.
abbrev pub drawn : ArsEvent → ℤ
drawn (principal_released e) = e.amount_atomic
drawn _ = pos 0

-- The job after an event that leads to the state `s`: all other fields stay.
abbrev pub advance : Job → ArsEvent → PrincipalState → Job
advance job event s = record job {
  state = s;
  last_event_at = event_at event;
  released_atomic = job.released_atomic +ℤ drawn event;
}

abbrev pub Advances : Job → ArsEvent → Job → Type 0
Advances job event next =
    (s : PrincipalState) × Allows job.state event s × (next ≡ advance job event s)

-- `Allows` as a table.
abbrev pub target : PrincipalState → ArsEvent → Option PrincipalState
target await_underwriting (underwriting_started e) = some underwriting
target underwriting (underwriting_decided e) = some (if e.passed then releasable else rejected)
target releasable (principal_released e) = some executing
target executing (principal_released e) = some executing
target executing (ArsEvent.evidence_submitted e) = some evidence_submitted
target evidence_submitted (ArsEvent.disputed e) = some disputed
target evidence_submitted (ArsEvent.closed e) = some closed
target disputed (ArsEvent.closed e) = some closed
target _ _ = none

target_of_Allows : {s t : PrincipalState} {e : ArsEvent} → Allows s e t → target s e ≡ some t
target_of_Allows starts = refl
target_of_Allows (passes h) = rw h
target_of_Allows (fails h) = rw h
target_of_Allows releases = refl
target_of_Allows releases_again = refl
target_of_Allows submits = refl
target_of_Allows disputes = refl
target_of_Allows closes = refl
target_of_Allows closes_dispute = refl

Allows-to : {s t u : PrincipalState} {e : ArsEvent} → t ≡ u → Allows s e t → Allows s e u
Allows-to {s} {e} p a = subst (λ u. Allows s e u) p a

Allows_of_target : (s t : PrincipalState) (e : ArsEvent) → target s e ≡ some t → Allows s e t
Allows_of_target await_underwriting t (underwriting_started e) h = Allows-to (cc) starts
Allows_of_target underwriting t (underwriting_decided e) h = elim (Bool-cases e.passed) [
  | inl p ↦ Allows-to (ground arith) (passes p)
  | inr p ↦ Allows-to (ground arith) (fails p)
]
Allows_of_target releasable t (principal_released e) h = Allows-to (cc) releases
Allows_of_target executing t (principal_released e) h = Allows-to (cc) releases_again
Allows_of_target executing t (ArsEvent.evidence_submitted e) h = Allows-to (cc) submits
Allows_of_target evidence_submitted t (ArsEvent.disputed e) h = Allows-to (cc) disputes
Allows_of_target evidence_submitted t (ArsEvent.closed e) h = Allows-to (cc) closes
Allows_of_target disputed t (ArsEvent.closed e) h = Allows-to (cc) closes_dispute
Allows_of_target s t e h = cc

apply_event-target :
    (job : Job) (event : ArsEvent) (s : PrincipalState)
    → job.job_id ≡ event_job_id event
    → target job.state event ≡ some s
    → apply_event (some job) event ≡ ok (advance job event s)
unfolding apply_event transition
apply_event-target job (job_opened e) s i h = ground arith
apply_event-target job event s i h =
    ground (arith, eq_iff job.job_id (event_job_id event), +ℤ_zero job.released_atomic)

-- Where the table has no entry, or the ids differ, `apply_event` raises its own error.
apply_event_refuses :
    (job : Job) (event : ArsEvent)
    → (job.job_id ≢ event_job_id event) ⊎ (target job.state event ≡ none)
    → Raises IsTransitionError (apply_event (some job) event)
unfolding apply_event transition
apply_event_refuses job (job_opened e) h = tt
apply_event_refuses job event h = ground (arith, eq_iff job.job_id (event_job_id event))

-- What an accepted event says, from the refusals.
accepted :
    (job next : Job) (event : ArsEvent)
    → apply_event (some job) event ≡ ok next
    → (job.job_id ≡ event_job_id event) × Advances job event next
accepted job next event h = elim (Bool-cases (str_eq job.job_id (event_job_id event))) [
  | inr p ↦ absurd (refused (inl (λ e. ground (arith, eq_iff job.job_id (event_job_id event)))))
  | inl p ↦ elim (Option-cases (target job.state event)) [
    | inl q ↦ absurd (refused (inr q))
    | inr (s, q) ↦ (
      (eq_iff _ _).0 p,
      (
        s,
        Allows_of_target job.state s event q,
        cc (h, apply_event-target job event s ((eq_iff _ _).0 p) q),
      ),
    )
  ]
]
  where
    refused : ((job.job_id ≢ event_job_id event) ⊎ (target job.state event ≡ none)) → ⊥
    refused d =
        Raises-ne-ok IsTransitionError (apply_event (some job) event)
          (apply_event_refuses job event d) h

-- On an existing job, `apply_event` returns exactly when the event has the job's id and the
-- diagram has an edge for it from the job's state, and then the returned job is in the edge's
-- target state, with the event's time and with the amount drawn added, and is otherwise unchanged.
pub apply_event_iff :
    (job : Job) (event : ArsEvent) (next : Job)
    → (apply_event (some job) event ≡ ok next)
      ↔ ((job.job_id ≡ event_job_id event) × Advances job event next)
apply_event_iff job event next = (
  accepted job next event,
  λ (i, (s, a, e)). apply_event-target job event s i (target_of_Allows a) ∙ ap ok (sym e),
)

-- Whatever the job and the event, the only exception of `apply_event` is `ARSTransitionError`.
pub apply_event_raises :
    (job : Option Job) (event : ArsEvent) (x : Exception)
    → apply_event job event ≡ raise x
    → IsTransitionError x
unfolding apply_event transition
apply_event_raises none (job_opened e) x h = cc
apply_event_raises none event x h = ground arith
apply_event_raises (some job) (job_opened e) x h = ground arith
apply_event_raises (some job) event x h = ground arith

-- An event with the given id that a live state accepts.
way_out : String → PrincipalState → ArsEvent
way_out i await_underwriting = underwriting_started (record { job_id = i; at = pos 0 })
way_out i underwriting =
    underwriting_decided (record { job_id = i; at = pos 0; passed = true; failure_code = none })
way_out i releasable = principal_released (record { job_id = i; at = pos 0; amount_atomic = pos 0 })
way_out i executing =
    ArsEvent.evidence_submitted
      (record { job_id = i; at = pos 0; action_hash = i; outcome = success })
way_out i _ = ArsEvent.closed (record { job_id = i; at = pos 0; resolution = no_dispute })

way_out_accepted :
    (i : String) (s : PrincipalState)
    → is_terminal s ≡ false
    → (t : PrincipalState) × (target s (way_out i s) ≡ some t)
unfolding way_out
way_out_accepted i rejected h = cc
way_out_accepted i closed h = cc
way_out_accepted i await_underwriting h = (underwriting, refl)
way_out_accepted i underwriting h = (releasable, refl)
way_out_accepted i releasable h = (executing, refl)
way_out_accepted i executing h = (evidence_submitted, refl)
way_out_accepted i evidence_submitted h = (closed, refl)
way_out_accepted i disputed h = (closed, refl)

event_job_id-way_out : (i : String) (s : PrincipalState) → event_job_id (way_out i s) ≡ i
unfolding way_out
event_job_id-way_out i s = ground arith

-- A job's state is terminal exactly when `apply_event` refuses every event on it, so each state
-- that is not terminal has an event that it accepts.
pub is_terminal_iff :
    (job : Job)
    → (is_terminal job.state ≡ true)
      ↔ ((event : ArsEvent) → Raises IsTransitionError (apply_event (some job) event))
is_terminal_iff job = (
  λ h event. apply_event_refuses job event (inr (dead event h)),
  λ h. elim (Bool-cases (is_terminal job.state)) [
    | inl p ↦ p
    | inr p ↦
        absurd (alive (h (way_out job.job_id job.state)) (way_out_accepted job.job_id job.state p))
  ],
)
  where
    dead : (event : ArsEvent) → is_terminal job.state ≡ true → target job.state event ≡ none
    dead event h = ground arith

    alive :
        Raises IsTransitionError (apply_event (some job) (way_out job.job_id job.state))
        → ((s : PrincipalState) × (target job.state (way_out job.job_id job.state) ≡ some s))
        → ⊥
    alive r (s, e) =
        Raises-ne-ok IsTransitionError _ r
          (apply_event-target job _ s (sym (event_job_id-way_out job.job_id job.state)) e)
