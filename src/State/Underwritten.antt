-- ===== src/State/Underwritten.antt =====
-- The logs of the jobs that passed underwriting (state.py, and src/state.ts through its agreement).
use ars_solana.Prelude.{◌≡◌, sym, ap, ◌∙◌, inl, inr, true, some, List, [], ◌∷◌, Result, ok, raise}
use mathlib.Core.Path.{subst}
use ars_solana.Events.{
  ArsEvent, JobOpened, UnderwritingStarted, UnderwritingDecided, job_opened, underwriting_started,
  underwriting_decided,
}
use ars_solana.State.{PrincipalState, await_underwriting, underwriting, rejected, Job, replay}
use ars_solana.State.Lifecycle.{
  Allows, starts, passes, fails, releases, releases_again, submits, disputes, closes,
  closes_dispute,
}
use ars_solana.State.Replay.{Run, Run-nil, Run-cons, replay_iff}
use ars_solana.State.Shape.{from_await, Run-Verdict}
use ars_solana.State.Typescript.{value, replay_ts, replay_agrees}

-- The states that lie behind a passed verdict.
abbrev pub IsUnderwritten : PrincipalState → Type 0
IsUnderwritten await_underwriting = ⊥
IsUnderwritten underwriting = ⊥
IsUnderwritten rejected = ⊥
IsUnderwritten _ = Unit

-- The events of a job's work: all but its opening and its underwriting.
abbrev pub IsWork : ArsEvent → Type 0
IsWork (job_opened e) = ⊥
IsWork (underwriting_started e) = ⊥
IsWork (underwriting_decided e) = ⊥
IsWork _ = Unit

pub Allows-IsUnderwritten :
    {s t : PrincipalState} {e : ArsEvent} → Allows s e t → IsWork e → IsUnderwritten s
Allows-IsUnderwritten starts h = absurd h
Allows-IsUnderwritten (passes p) h = absurd h
Allows-IsUnderwritten (fails p) h = absurd h
Allows-IsUnderwritten releases h = tt
Allows-IsUnderwritten releases_again h = tt
Allows-IsUnderwritten submits h = tt
Allows-IsUnderwritten disputes h = tt
Allows-IsUnderwritten closes h = tt
Allows-IsUnderwritten closes_dispute h = tt

-- A log that begins with the opening, the start of underwriting and a passed verdict.
abbrev pub BeginsPassed : List ArsEvent → Type 0
BeginsPassed log =
    (o : JobOpened) × (u : UnderwritingStarted) × (d : UnderwritingDecided) × (rest : List ArsEvent)
    × (log ≡ job_opened o ∷ underwriting_started u ∷ underwriting_decided d ∷ rest)
    × (d.passed ≡ true)

Run-passed :
    (s : PrincipalState) (es : List ArsEvent)
    → Run await_underwriting es s
    → IsUnderwritten s
    → (u : UnderwritingStarted) × (d : UnderwritingDecided) × (rest : List ArsEvent) × (es
        ≡ underwriting_started u ∷ underwriting_decided d ∷ rest)
      × (d.passed ≡ true)
Run-passed s [] r h = absurd (subst IsUnderwritten (sym (Run-nil r)) h)
Run-passed s (e ∷ []) r h =
    let (t, a, later) = Run-cons r in
    let (u, p, q) = from_await a in absurd (subst IsUnderwritten (sym (Run-nil later) ∙ q) h)
Run-passed s (e ∷ f ∷ es) r h =
    let (u, d, rest, p, out) = Run-Verdict s e f es r in
    elim out [
      | inl (passed, work) ↦ (u, d, rest, p, passed)
      | inr (ended, q) ↦ absurd (subst IsUnderwritten q h)
    ]

replayed : (r : Result Job) (job : Job) → value r ≡ some job → r ≡ ok job
replayed (ok j) job h = cc
replayed (raise x) job h = cc

-- A log that replays to an underwritten job begins with a passed underwriting.
pub replay_ts-BeginsPassed :
    (log : List ArsEvent) (job : Job)
    → replay_ts log ≡ ok job
    → IsUnderwritten job.state
    → BeginsPassed log
replay_ts-BeginsPassed log job h w =
    let python = replayed (replay log) job (sym (replay_agrees log) ∙ ap value h) in
    let (o, es, p, ids, (s, run, q)) = (replay_iff log job).0 python in
    let (u, d, rest, p', passed) =
      Run-passed s es run (subst IsUnderwritten (ap (λ (j : Job). j.state) q) w) in
    (o, u, d, rest, cc (p, p'), passed)
