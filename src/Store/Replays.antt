-- ===== src/Store/Replays.antt =====
-- The check of `append` (src/store.ts) against a replay of the log with the event at its end
-- (src/state.ts), and the id of the job.
use ars_solana.Prelude.{
  String, ◌≡◌, refl, sym, ap, ◌∙◌, Option, none, some, List, [], ◌∷◌, ◌++◌, Result, ok, raise,
  ◌>>=◌, >>=-eq-ok, >>=_assoc, arith,
}
use mathlib.Core.Path.{fun_ext}
use ars_solana.Events.{ArsEvent, JobOpened, job_opened, event_job_id}
use ars_solana.State.{PrincipalState, Job, finish, apply_event}
use ars_solana.State.Lifecycle.{Allows, Advances, apply_event_iff}
use ars_solana.State.Typescript.{
  apply_event_ts, replay_from_ts, replay_ts, value, apply_event_agrees,
}
use ars_solana.Store.{derived}

replay_from_ts-append :
    (job : Option Job) (xs ys : List ArsEvent)
    → replay_from_ts job (xs ++ ys) ≡ (replay_from_ts job xs >>= λ next. replay_from_ts next ys)
unfolding replay_from_ts
replay_from_ts-append job [] ys = refl
replay_from_ts-append job (x ∷ xs) ys =
    ap (λ f. apply_event_ts job x >>= f) (fun_ext (λ next. replay_from_ts-append (some next) xs ys))
    ∙ sym (>>=_assoc (apply_event_ts job x) _ _)

through_finish :
    (r : Result Job) (later : Job → Result (Option Job))
    → ((next : Job) → later next ≡ ((later next >>= finish) >>= λ last. ok (some last)))
    → (r >>= later) ≡ (((r >>= later) >>= finish) >>= λ last. ok (some last))
through_finish (ok next) later h = h next
through_finish (raise e) later h = refl

-- A replay that starts from a job ends with one.
replay_from_ts-some :
    (job : Job) (xs : List ArsEvent)
    → replay_from_ts (some job) xs
      ≡ ((replay_from_ts (some job) xs >>= finish) >>= λ last. ok (some last))
unfolding replay_from_ts
replay_from_ts-some job [] = refl
replay_from_ts-some job (x ∷ xs) =
    through_finish (apply_event_ts (some job) x) (λ next. replay_from_ts (some next) xs)
      (λ next. replay_from_ts-some next xs)

one_more :
    (job : Option Job) (event : ArsEvent)
    → (replay_from_ts job (event ∷ []) >>= finish) ≡ apply_event_ts job event
unfolding replay_from_ts
one_more job event = go (apply_event_ts job event)
  where
    go : (r : Result Job) → ((r >>= λ next. ok (some next)) >>= finish) ≡ r
    go (ok next) = refl
    go (raise e) = refl

derived-eq-replay_from_ts : (xs : List ArsEvent) → derived xs ≡ replay_from_ts none xs
unfolding replay_from_ts replay_ts
derived-eq-replay_from_ts [] = refl
derived-eq-replay_from_ts (x ∷ xs) = sym (
    through_finish (apply_event_ts none x) (λ next. replay_from_ts (some next) xs)
      (λ next. replay_from_ts-some next xs))

-- Deriving the job and applying the event is replaying the log with the event at its end.
pub replay_ts-append_event :
    (xs : List ArsEvent) (event : ArsEvent)
    → replay_ts (xs ++ event ∷ []) ≡ (derived xs >>= λ job. apply_event_ts job event)
unfolding replay_ts
replay_ts-append_event xs event =
    ap (λ r. r >>= finish) (replay_from_ts-append none xs (event ∷ []))
    ∙ >>=_assoc (replay_from_ts none xs) _ _
    ∙ ap (λ f. replay_from_ts none xs >>= f) (fun_ext (λ job. one_more job event))
    ∙ ap (λ r. r >>= λ job. apply_event_ts job event) (sym (derived-eq-replay_from_ts xs))

-- What comes before and with an event of a log that replays, replays.
pub replay_ts_prefix :
    (xs ys : List ArsEvent) (event : ArsEvent) (job : Job)
    → replay_ts (xs ++ event ∷ ys) ≡ ok job
    → (earlier : Job) × (replay_ts (xs ++ event ∷ []) ≡ ok earlier)
unfolding replay_ts replay_from_ts
replay_ts_prefix xs ys event job h =
    let (final, looped, finished) = >>=-eq-ok (replay_from_ts none (xs ++ event ∷ ys)) _ h in
    let (current, p, q) =
      >>=-eq-ok _ _ (sym (replay_from_ts-append none xs (event ∷ ys)) ∙ looped) in
    let (earlier, r, t) = >>=-eq-ok (apply_event_ts current event) _ q in
    (
      earlier,
      replay_ts-append_event xs event
          ∙ ap (λ d. d >>= λ job. apply_event_ts job event) (derived-eq-replay_from_ts xs ∙ p)
          ∙ r,
    )

-- The log replays to a job with the given id.
abbrev pub Replays : String → List ArsEvent → Type 0
Replays job_id events = (job : Job) × (replay_ts events ≡ ok job) × (job.job_id ≡ job_id)

abbrev pub IsOpening : ArsEvent → Type 0
IsOpening event = (e : JobOpened) × (event ≡ job_opened e)

pub Replays-nil : (job_id : String) → ¬ Replays job_id []
unfolding replay_ts
Replays-nil job_id (job, p, q) = cc p

pub derived-Replays :
    (events : List ArsEvent) (job : Job)
    → replay_ts events ≡ ok job
    → derived events ≡ ok (some job)
derived-Replays [] job p = absurd (Replays-nil job.job_id (job, p, refl))
derived-Replays (e ∷ es) job p = rw p

value-eq-some : {A : Type 0} (r : Result A) (a : A) → value r ≡ some a → r ≡ ok a
value-eq-some (ok b) a h = cc
value-eq-some (raise e) a h = cc

-- What the TypeScript accepts, the Python does.
accepts :
    (job : Option Job) (event : ArsEvent) (next : Job)
    → apply_event_ts job event ≡ ok next
    → apply_event job event ≡ ok next
accepts job event next h = value-eq-some _ next (sym (apply_event_agrees job event) ∙ ap value h)

opens :
    (event : ArsEvent) (next : Job)
    → apply_event none event ≡ ok next
    → IsOpening event × (next.job_id ≡ event_job_id event)
unfolding apply_event
opens (job_opened e) next h = ((e, refl), ground arith)
opens event next h = cc

-- An event that starts a log opens the job, and the log is then that of the event's job.
pub first_event :
    (event : ArsEvent) (next : Job)
    → apply_event_ts none event ≡ ok next
    → IsOpening event × (next.job_id ≡ event_job_id event)
first_event event next h = opens event next (accepts none event next h)

-- A later event has the job's id, does not open a job, and is an edge of the lifecycle.
pub later_event :
    (job : Job) (event : ArsEvent) (next : Job)
    → apply_event_ts (some job) event ≡ ok next
    → (job.job_id ≡ event_job_id event)
      × (next.job_id ≡ job.job_id)
      × (¬ IsOpening event)
      × Advances job event next
later_event job event next h =
    let (i, (s, a, p)) = (apply_event_iff job event next).0 (accepts (some job) event next h) in
    (i, ap (λ (j : Job). j.job_id) p, λ (e, q). no_opening (rw q at a), (s, a, p))
  where
    no_opening : {s t : PrincipalState} {e : JobOpened} → ¬ Allows s (job_opened e) t
    no_opening a = elim a [ ]
