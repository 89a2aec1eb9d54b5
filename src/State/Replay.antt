-- ===== src/State/Replay.antt =====
-- `replay` (state.py) against runs of the lifecycle: what a log that replays must look like, and
-- where each field of the job comes from.
use ars_solana.Prelude.{
  String, ◌≡◌, refl, sym, ap, ◌∙◌, ◌↔◌, Option, none, some, List, [], ◌∷◌, ◌++◌, All, ℤ, pos, ◌+ℤ◌,
  +ℤ_assoc, +ℤ_zero, Exception, Result, ok, raise, ◌>>=◌, >>=-eq-ok, >>=-eq-raise, inl, inr,
  IsTransitionError, arith,
}
use mathlib.Core.Path.{subst}
use ars_solana.Events.{ArsEvent, JobOpened, job_opened, event_job_id, event_at}
use ars_solana.State.{
  PrincipalState, await_underwriting, Job, open_job, apply_event, replay_from, finish, replay,
}
use ars_solana.State.Lifecycle.{
  Allows, advance, Advances, drawn, apply_event_iff, apply_event_raises,
}

-- A run of the diagram over the events of a log.
pub data Run : PrincipalState → List ArsEvent → PrincipalState → Type 0 where
  done : {s : PrincipalState} → Run s [] s
  step :
      {s t u : PrincipalState} {e : ArsEvent} {es : List ArsEvent}
      → Allows s e t
      → Run t es u
      → Run s (e ∷ es) u

pub Run-nil : {s t : PrincipalState} → Run s [] t → s ≡ t
Run-nil done = refl

pub Run-cons :
    {s u : PrincipalState} {e : ArsEvent} {es : List ArsEvent}
    → Run s (e ∷ es) u
    → (t : PrincipalState) × Allows s e t × Run t es u
Run-cons (step {t} a r) = (t, a, r)

-- The principal that a log draws in all.
abbrev pub total_drawn : List ArsEvent → ℤ
total_drawn [] = pos 0
total_drawn (e ∷ es) = drawn e +ℤ total_drawn es

-- The time of the last event of a log, or the given one.
abbrev pub last_at : ℤ → List ArsEvent → ℤ
last_at t [] = t
last_at t (e ∷ es) = last_at (event_at e) es

-- The job after a log that leads to the state `s`.
abbrev pub advance_all : Job → List ArsEvent → PrincipalState → Job
advance_all job es s = record job {
  state = s;
  last_event_at = last_at job.last_event_at es;
  released_atomic = job.released_atomic +ℤ total_drawn es;
}

abbrev pub HasId : String → ArsEvent → Type 0
HasId i e = i ≡ event_job_id e

abbrev pub RunsTo : Job → List ArsEvent → Job → Type 0
RunsTo job es final = (s : PrincipalState) × Run job.state es s × (final ≡ advance_all job es s)

-- Replaying two logs one after the other is replaying their concatenation.
pub replay_from-append :
    (job : Option Job) (xs ys : List ArsEvent)
    → replay_from job (xs ++ ys) ≡ (replay_from job xs >>= λ next. replay_from next ys)
unfolding replay_from
replay_from-append job [] ys = refl
replay_from-append job (x ∷ xs) ys =
    go (apply_event job x) (λ next. replay_from-append (some next) xs ys)
  where
    go :
        (r : Result Job)
        → ((next : Job)
            → replay_from (some next) (xs ++ ys)
              ≡ (replay_from (some next) xs >>= λ last. replay_from last ys))
        → (r >>= λ next. replay_from (some next) (xs ++ ys))
          ≡ ((r >>= λ next. replay_from (some next) xs) >>= λ last. replay_from last ys)
    go (ok next) ih = ih next
    go (raise x) ih = refl

advance_all-nil : (job : Job) → advance_all job [] job.state ≡ job
advance_all-nil job =
    ap (λ (r : ℤ). record job { released_atomic = r }) (+ℤ_zero job.released_atomic)

advance_all-cons :
    (job : Job) (e : ArsEvent) (es : List ArsEvent) (t s : PrincipalState)
    → advance_all (advance job e t) es s ≡ advance_all job (e ∷ es) s
advance_all-cons job e es t s =
    ap
      (λ (r : ℤ). record job {
        state = s;
        last_event_at = last_at (event_at e) es;
        released_atomic = r;
      })
      (+ℤ_assoc job.released_atomic (drawn e) (total_drawn es))

RunsTo-cons :
    (job next final : Job) (e : ArsEvent) (es : List ArsEvent)
    → Advances job e next
    → RunsTo next es final
    → RunsTo job (e ∷ es) final
RunsTo-cons job next final e es (t, a, p) (s, r, q) = (
  s,
  step a (subst (λ (n : Job). Run n.state es s) p r),
  q ∙ ap (λ (n : Job). advance_all n es s) p ∙ advance_all-cons job e es t s,
)

-- From a job, every log that is accepted has the job's id throughout and is a run of the diagram.
replay_from_sound :
    (job : Job) (es : List ArsEvent) (final : Option Job)
    → replay_from (some job) es ≡ ok final
    → All (HasId job.job_id) es × ((last : Job) × (final ≡ some last) × RunsTo job es last)
unfolding replay_from
replay_from_sound job [] final h = (tt, (job, cc, (job.state, done, sym (advance_all-nil job))))
replay_from_sound job (e ∷ es) final h =
    let (next, first, later) = >>=-eq-ok (apply_event (some job) e) _ h in
    let (i, a) = (apply_event_iff job e next).0 first in
    let (ids, (last, p, r)) = replay_from_sound next es final later in
    (
      (i, subst (λ (n : Job). All (HasId n.job_id) es) a.2 ids),
      (last, p, RunsTo-cons job next last e es a r),
    )

-- And every such log is accepted.
pub replay_from_complete :
    (job : Job) (es : List ArsEvent) (s : PrincipalState)
    → All (HasId job.job_id) es
    → Run job.state es s
    → replay_from (some job) es ≡ ok (some (advance_all job es s))
unfolding replay_from
replay_from_complete job [] s i r =
    rw (← Run-nil r) (ap (λ (j : Job). ok (some j)) (sym (advance_all-nil job)))
replay_from_complete job (e ∷ es) s (i, is) r =
    let (t, a, later) = Run-cons r in
    let first = (apply_event_iff job e (advance job e t)).1 (i, (t, a, refl)) in
    rw first (
      replay_from_complete (advance job e t) es s is later
      ∙ ap (λ (j : Job). ok (some j)) (advance_all-cons job e es t s))

loop_raises :
    (job : Option Job) (log : List ArsEvent) (x : Exception)
    → replay_from job log ≡ raise x
    → IsTransitionError x
unfolding replay_from
loop_raises job [] x h = cc
loop_raises job (e ∷ es) x h = elim (>>=-eq-raise (apply_event job e) _ h) [
  | inl p ↦ apply_event_raises job e x p
  | inr (next, p, q) ↦ loop_raises (some next) es x q
]

-- The job that `JobOpened` creates.
abbrev pub opened : JobOpened → Job
opened e = record {
  job_id = e.job_id;
  agent = e.agent;
  requestor = e.requestor;
  exposure_atomic = e.exposure_atomic;
  state = await_underwriting;
  released_atomic = pos 0;
  last_event_at = e.at;
}

finish-some :
    {last job : Job} (final : Option Job) → final ≡ some last → finish final ≡ ok job → last ≡ job
finish-some none p q = cc
finish-some (some x) p q = cc

-- A log replays to a job exactly when its first event opens a job, all later events have that
-- job's id and are a run of the lifecycle diagram, and then the job is the one opened, in the
-- state where the run ends, at the time of the last event, with the sum of the amounts drawn.
pub replay_iff :
    (log : List ArsEvent) (job : Job)
    → (replay log ≡ ok job) ↔ (
        (e : JobOpened) × (es : List ArsEvent) × (log ≡ job_opened e ∷ es)
        × All (HasId e.job_id) es
        × RunsTo (opened e) es job)
unfolding replay apply_event open_job
replay_iff log job = (to log, from)
  where
    to :
        (log : List ArsEvent)
        → replay log ≡ ok job
        → (e : JobOpened) × (es : List ArsEvent) × (log ≡ job_opened e ∷ es)
          × All (HasId e.job_id) es
          × RunsTo (opened e) es job
    to [] h = cc
    to (job_opened e ∷ es) h =
        let (final, looped, finished) = >>=-eq-ok (replay_from (some (opened e)) es) _ h in
        let (ids, (last, p, r)) = replay_from_sound (opened e) es final looped in
        (
          e,
          es,
          refl,
          ids,
          subst (λ (j : Job). RunsTo (opened e) es j) (finish-some final p finished) r,
        )
    to (event ∷ es) h = cc

    from :
        ((e : JobOpened) × (es : List ArsEvent) × (log ≡ job_opened e ∷ es)
          × All (HasId e.job_id) es
          × RunsTo (opened e) es job)
        → replay log ≡ ok job
    from (e, es, p, ids, (s, r, q)) =
        rw p (rw (replay_from_complete (opened e) es s ids r) (ap ok (sym q)))

some_of_finish : (final : Option Job) (job : Job) → finish final ≡ ok job → final ≡ some job
some_of_finish none job h = cc
some_of_finish (some x) job h = cc

finish_raises : (final : Option Job) (x : Exception) → finish final ≡ raise x → IsTransitionError x
finish_raises none x h = ground arith
finish_raises (some job) x h = cc

-- The only exception of `replay` is `ARSTransitionError`, whatever the log.
pub replay_raises :
    (log : List ArsEvent) (x : Exception) → replay log ≡ raise x → IsTransitionError x
unfolding replay
replay_raises log x h = elim (>>=-eq-raise (replay_from none log) _ h) [
  | inl p ↦ loop_raises none log x p
  | inr (final, p, q) ↦ finish_raises final x q
]

-- Appending an event to a log that has one is applying it to the job that the log replays to, so
-- a store that applies each event as it arrives holds the job that a full replay derives.
pub replay-append_event :
    (log : List ArsEvent) (job : Job) (event : ArsEvent)
    → replay log ≡ ok job
    → replay (log ++ event ∷ []) ≡ apply_event (some job) event
unfolding replay replay_from
replay-append_event log job event h =
    let (final, looped, finished) = >>=-eq-ok (replay_from none log) _ h in
    rw (replay_from-append none log (event ∷ []), looped)
      (rw (some_of_finish final job finished) (one (apply_event (some job) event)))
  where
    one : (r : Result Job) → ((r >>= λ next. replay_from (some next) []) >>= finish) ≡ r
    one (ok next) = refl
    one (raise x) = refl
