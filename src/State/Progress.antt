-- ===== src/State/Progress.antt =====
-- The length and the continuation of logs (state.py).
use ars_solana.Prelude.{
  ℕ, ◌+◌, ◌≤◌, ◌≡◌, refl, ap, ◌∙◌, String, true, false, none, some, List, [], ◌∷◌, ◌++◌, All,
  length, pos, ok, arith, ◌>>=◌, Option, >>=-eq-ok,
}
use ars_solana.Events.{
  ArsEvent, underwriting_started, underwriting_decided, principal_released, success, no_dispute,
}
use ars_solana.State.{
  PrincipalState, await_underwriting, underwriting, rejected, releasable, executing,
  evidence_submitted, disputed, closed, Job, is_terminal, finish, replay_from, replay,
}
use ars_solana.State.Lifecycle.{
  starts, passes, fails, releases, releases_again, submits, disputes, closes, closes_dispute,
}
use ars_solana.State.Replay.{
  Run, done, step, advance_all, HasId, replay_iff, replay_from_complete, replay_from-append,
}

-- How many events other than draws can follow in a state.
abbrev pub steps_left : PrincipalState → ℕ
steps_left await_underwriting = 5
steps_left underwriting = 4
steps_left releasable = 3
steps_left executing = 3
steps_left evidence_submitted = 2
steps_left disputed = 1
steps_left _ = 0

abbrev pub draw_count : List ArsEvent → ℕ
draw_count [] = 0
draw_count (principal_released e ∷ es) = 1 + draw_count es
draw_count (_ ∷ es) = draw_count es

Run-bound :
    {s t : PrincipalState} {es : List ArsEvent}
    → Run s es t
    → length es + steps_left t ≤ steps_left s + draw_count es
Run-bound done = omega arith
Run-bound (step starts r) = omega (arith, Run-bound r)
Run-bound (step (passes p) r) = omega (arith, Run-bound r)
Run-bound (step (fails p) r) = omega (arith, Run-bound r)
Run-bound (step releases r) = omega (arith, Run-bound r)
Run-bound (step releases_again r) = omega (arith, Run-bound r)
Run-bound (step submits r) = omega (arith, Run-bound r)
Run-bound (step disputes r) = omega (arith, Run-bound r)
Run-bound (step closes r) = omega (arith, Run-bound r)
Run-bound (step closes_dispute r) = omega (arith, Run-bound r)

-- A log that replays has at most six events beside its draws of principal, and as many fewer as
-- the job's state still allows: five while underwriting has not started, none once it has ended.
pub length-replay :
    (log : List ArsEvent) (job : Job)
    → replay log ≡ ok job
    → length log + steps_left job.state ≤ 6 + draw_count log
length-replay log job h =
    let (o, es, p, ids, (s, run, q)) = (replay_iff log job).0 h in
    rw (p, q) (omega (arith, Run-bound run))

-- Events with a job's id that take it from a live state to its closing.
module _ (i : String) where
  abbrev from_evidence : List ArsEvent
  from_evidence = ArsEvent.closed (record { job_id = i; at = pos 0; resolution = no_dispute }) ∷ []

  abbrev from_executing : List ArsEvent
  from_executing =
      ArsEvent.evidence_submitted
        (record { job_id = i; at = pos 0; action_hash = i; outcome = success })
      ∷ from_evidence

  abbrev from_releasable : List ArsEvent
  from_releasable =
      principal_released (record { job_id = i; at = pos 0; amount_atomic = pos 0 }) ∷ from_executing

  abbrev from_underwriting : List ArsEvent
  from_underwriting =
      underwriting_decided (record { job_id = i; at = pos 0; passed = true; failure_code = none })
      ∷ from_releasable

  abbrev from_await : List ArsEvent
  from_await = underwriting_started (record { job_id = i; at = pos 0 }) ∷ from_underwriting

-- The rest of a log that closes the job.
abbrev Closes : String → PrincipalState → List ArsEvent → Type 0
Closes i s es = All (HasId i) es × Run s es closed × (length es ≤ 5)

closable :
    (i : String) (s : PrincipalState) → is_terminal s ≡ false → (es : List ArsEvent) × Closes i s es
closable i rejected h = cc
closable i closed h = cc
closable i disputed h = (from_evidence i, ((refl, tt), step closes_dispute done, omega arith))
closable i evidence_submitted h = (from_evidence i, ((refl, tt), step closes done, omega arith))
closable i executing h =
    (from_executing i, ((refl, (refl, tt)), step submits (step closes done), omega arith))
closable i releasable h = (
  from_releasable i,
  ((refl, (refl, (refl, tt))), step releases (step submits (step closes done)), omega arith),
)
closable i underwriting h = (
  from_underwriting i,
  (
    (refl, (refl, (refl, (refl, tt)))),
    step (passes refl) (step releases (step submits (step closes done))),
    omega arith,
  ),
)
closable i await_underwriting h = (
  from_await i,
  (
    (refl, (refl, (refl, (refl, (refl, tt))))),
    step starts (step (passes refl) (step releases (step submits (step closes done)))),
    omega arith,
  ),
)

finish_ok : (final : Option Job) (job : Job) → finish final ≡ ok job → final ≡ some job
finish_ok none job h = cc
finish_ok (some last) job h = cc

replayed_from :
    (log : List ArsEvent) (job : Job) → replay log ≡ ok job → replay_from none log ≡ ok (some job)
unfolding replay
replayed_from log job h =
    let (final, looped, finished) = >>=-eq-ok (replay_from none log) finish h in
    looped ∙ ap ok (finish_ok final job finished)

-- Every log that replays to a job that is neither rejected nor closed can be continued by at most
-- five events so that it replays to a closed job: no reachable state is stuck.
pub replay-can_close :
    (log : List ArsEvent) (job : Job)
    → replay log ≡ ok job
    → is_terminal job.state ≡ false
    → (es : List ArsEvent) × (final : Job) × (length es ≤ 5)
      × (replay (log ++ es) ≡ ok final)
      × (final.state ≡ closed)
unfolding replay
replay-can_close log job h live =
    let (es, (ids, run, bound)) = closable job.job_id job.state live in
    (
      es,
      advance_all job es closed,
      bound,
      ap (λ r. r >>= finish)
          (replay_from-append none log es
            ∙ ap (λ r. r >>= λ next. replay_from next es) (replayed_from log job h)
            ∙ replay_from_complete job es closed ids run),
      refl,
    )
