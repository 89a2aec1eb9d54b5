-- ===== src/State/Tests.antt =====
-- Logs run through the state machine, and its theorems at them.
use mathlib.Core.List.{Memᴰ}
use ars_solana.Prelude.{
  ◌≡◌, ◌↔◌, refl, true, none, some, List, [], ◌∷◌, ◌++◌, All, pos, ok, raise, ars_transition_error,
  Raises, IsTransitionError, ◌+ℤ◌, length, ◌+◌, ◌≤◌,
}
use ars_solana.Events.{
  ArsEvent, PrincipalReleased, JobOpened, UnderwritingStarted, UnderwritingDecided, job_opened,
  underwriting_started, underwriting_decided, principal_released, success, no_dispute,
}
use ars_solana.State.{is_terminal, Job, executing, evidence_submitted, closed, apply_event, replay}
use ars_solana.State.Lifecycle.{Advances, apply_event_iff, is_terminal_iff}
use ars_solana.State.Replay.{RunsTo, HasId, opened, replay_iff, replay_raises}
use ars_solana.State.Shape.{IsClosedLog, IsClosedLog-shape, draw_needs_verdict}
use ars_solana.State.Progress.{steps_left, draw_count, length-replay, replay-can_close}
use ars_solana.State.Typescript.{value, replay_ts, replay_agrees}

abbrev opening : ArsEvent
opening =
    job_opened
      (record { job_id = "j1"; at = pos 1; agent = "A"; requestor = "D"; exposure_atomic = pos 9 })

abbrev a_draw : PrincipalReleased
a_draw = record { job_id = "j1"; at = pos 4; amount_atomic = pos 5 }

abbrev working_log : List ArsEvent
working_log =
    opening
    ∷ underwriting_started (record { job_id = "j1"; at = pos 2 })
    ∷ underwriting_decided
        (record { job_id = "j1"; at = pos 3; passed = true; failure_code = none })
    ∷ principal_released a_draw
    ∷ []

abbrev evidence : ArsEvent
evidence =
    ArsEvent.evidence_submitted
      (record { job_id = "j1"; at = pos 5; action_hash = "0xabc"; outcome = success })

abbrev closing_log : List ArsEvent
closing_log =
    working_log
    ++ evidence
      ∷ ArsEvent.closed (record { job_id = "j1"; at = pos 6; resolution = no_dispute })
      ∷ []

abbrev working : Job
working = record {
  job_id = "j1";
  agent = "A";
  requestor = "D";
  exposure_atomic = pos 9;
  state = executing;
  released_atomic = pos 5;
  last_event_at = pos 4;
}

abbrev finished : Job
finished = record working { state = closed; last_event_at = pos 6 }

replay_working : replay working_log ≡ ok working
unfolding replay apply_event ◌+ℤ◌
replay_working = refl

replay_closing : replay closing_log ≡ ok finished
unfolding replay apply_event ◌+ℤ◌
replay_closing = refl

abbrev evidenced : Job
evidenced = record working { state = evidence_submitted; last_event_at = pos 5 }

apply_evidence : apply_event (some working) evidence ≡ ok evidenced
unfolding apply_event
apply_evidence = refl

apply_event_iff_example : HasId "j1" evidence × Advances working evidence evidenced
apply_event_iff_example = (apply_event_iff working evidence evidenced).0 apply_evidence

-- A second opening is refused.
reopening :
    apply_event (some working) opening
    ≡ raise (ars_transition_error "JobOpened for j1: job already exists")
unfolding apply_event
reopening = refl

is_terminal_iff_example :
    (is_terminal finished.state ≡ true)
    ↔ ((event : ArsEvent) → Raises IsTransitionError (apply_event (some finished) event))
is_terminal_iff_example = is_terminal_iff finished

replay_iff_example :
    (e : JobOpened) × (es : List ArsEvent) × (working_log ≡ job_opened e ∷ es)
    × All (HasId e.job_id) es
    × RunsTo (opened e) es working
replay_iff_example = (replay_iff working_log working).0 replay_working

replay_empty : replay [] ≡ raise (ars_transition_error "cannot replay an empty event log")
unfolding replay
replay_empty = refl

replay_raises_example : IsTransitionError (ars_transition_error "cannot replay an empty event log")
replay_raises_example = replay_raises [] _ replay_empty

IsClosedLog-shape_example : IsClosedLog closing_log
IsClosedLog-shape_example = IsClosedLog-shape closing_log finished replay_closing refl

draw_listed : Memᴰ (principal_released a_draw) working_log
draw_listed = Memᴰ.tail (Memᴰ.tail (Memᴰ.tail (Memᴰ.head refl)))

draw_needs_verdict_example :
    (o : JobOpened) × (u : UnderwritingStarted) × (d : UnderwritingDecided) × (rest : List ArsEvent)
    × (working_log ≡ job_opened o ∷ underwriting_started u ∷ underwriting_decided d ∷ rest)
    × (d.passed ≡ true)
    × Memᴰ (principal_released a_draw) rest
draw_needs_verdict_example =
    draw_needs_verdict working_log working a_draw replay_working draw_listed

replay_agrees_example : value (replay_ts closing_log) ≡ value (replay closing_log)
replay_agrees_example = replay_agrees closing_log

length-replay_example : length working_log + steps_left working.state ≤ 6 + draw_count working_log
length-replay_example = length-replay working_log working replay_working

replay-can_close_example :
    (es : List ArsEvent) × (final : Job) × (length es ≤ 5)
    × (replay (working_log ++ es) ≡ ok final)
    × (final.state ≡ closed)
replay-can_close_example = replay-can_close working_log working replay_working refl
