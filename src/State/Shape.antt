-- ===== src/State/Shape.antt =====
-- The shape of the logs that replay (state.py) to a closed job, and of those that draw principal.
use mathlib.Core.List.{Memᴰ}
use ars_solana.Prelude.{
  ◌≡◌, refl, sym, ap, ◌∙◌, ◌⊎◌, inl, inr, ◌≢◌, true, List, [], ◌∷◌, ◌++◌, All, ok, arith,
}
use ars_solana.Events.{
  ArsEvent, JobOpened, UnderwritingStarted, UnderwritingDecided, PrincipalReleased,
  EvidenceSubmitted, Disputed, Closed, job_opened, underwriting_started, underwriting_decided,
  principal_released,
}
use ars_solana.State.{
  PrincipalState, await_underwriting, underwriting, rejected, releasable, executing,
  evidence_submitted, disputed, closed, Job, replay,
}
use ars_solana.State.Lifecycle.{
  Allows, starts, passes, fails, releases, releases_again, submits, disputes, closes,
  closes_dispute,
}
use ars_solana.State.Replay.{Run, Run-nil, Run-cons, replay_iff}

abbrev pub IsDraw : ArsEvent → Type 0
IsDraw e = (r : PrincipalReleased) × (e ≡ principal_released r)

-- How a log ends once the evidence is in: closed at once, or after a dispute.
abbrev pub IsSettlement : List ArsEvent → Type 0
IsSettlement es =
    ((c : Closed) × (es ≡ ArsEvent.closed c ∷ []))
    ⊎ ((d : Disputed) × (c : Closed) × (es ≡ ArsEvent.disputed d ∷ ArsEvent.closed c ∷ []))

-- What follows a passed underwriting in a log that closes: one draw or more, evidence, settlement.
abbrev pub IsExecution : List ArsEvent → Type 0
IsExecution es =
    (r : PrincipalReleased) × (draws : List ArsEvent) × (v : EvidenceSubmitted) × (settlement : List
      ArsEvent)
    × (es ≡ principal_released r ∷ (draws ++ ArsEvent.evidence_submitted v ∷ settlement))
    × All IsDraw draws
    × IsSettlement settlement

-- The edges that leave each state.
pub from_await :
    {e : ArsEvent} {t : PrincipalState}
    → Allows await_underwriting e t
    → (u : UnderwritingStarted) × (e ≡ underwriting_started u) × (t ≡ underwriting)
from_await (starts {e = u}) = (u, refl, refl)

from_underwriting :
    {e : ArsEvent} {t : PrincipalState}
    → Allows underwriting e t
    → (d : UnderwritingDecided) × (e ≡ underwriting_decided d)
      × (((d.passed ≡ true) × (t ≡ releasable)) ⊎ (t ≡ rejected))
from_underwriting (passes {e = d} p) = (d, refl, inl (p, refl))
from_underwriting (fails {e = d} p) = (d, refl, inr refl)

from_releasable :
    {e : ArsEvent} {t : PrincipalState}
    → Allows releasable e t
    → (r : PrincipalReleased) × (e ≡ principal_released r) × (t ≡ executing)
from_releasable (releases {e = r}) = (r, refl, refl)

from_executing :
    {e : ArsEvent} {t : PrincipalState}
    → Allows executing e t
    → ((r : PrincipalReleased) × (e ≡ principal_released r) × (t ≡ executing))
      ⊎ ((v : EvidenceSubmitted) × (e ≡ ArsEvent.evidence_submitted v) × (t ≡ evidence_submitted))
from_executing (releases_again {e = r}) = inl (r, refl, refl)
from_executing (submits {e = v}) = inr (v, refl, refl)

from_evidence :
    {e : ArsEvent} {t : PrincipalState}
    → Allows evidence_submitted e t
    → ((d : Disputed) × (e ≡ ArsEvent.disputed d) × (t ≡ disputed))
      ⊎ ((c : Closed) × (e ≡ ArsEvent.closed c) × (t ≡ closed))
from_evidence (disputes {e = d}) = inl (d, refl, refl)
from_evidence (closes {e = c}) = inr (c, refl, refl)

from_disputed :
    {e : ArsEvent} {t : PrincipalState}
    → Allows disputed e t
    → (c : Closed) × (e ≡ ArsEvent.closed c) × (t ≡ closed)
from_disputed (closes_dispute {e = c}) = (c, refl, refl)

from_closed : {e : ArsEvent} {t : PrincipalState} → ¬ Allows closed e t
from_closed a = elim a [ ]

from_rejected : {e : ArsEvent} {t : PrincipalState} → ¬ Allows rejected e t
from_rejected a = elim a [ ]

Run-closed : (es : List ArsEvent) → Run closed es closed → es ≡ []
Run-closed [] r = refl
Run-closed (e ∷ es) r = absurd (from_closed (Run-cons r).1)

Run-rejected :
    {s : PrincipalState} (es : List ArsEvent) → Run rejected es s → (es ≡ []) × (s ≡ rejected)
Run-rejected [] r = (refl, sym (Run-nil r))
Run-rejected (e ∷ es) r = absurd (from_rejected (Run-cons r).1)

Run-disputed :
    (es : List ArsEvent) → Run disputed es closed → (c : Closed) × (es ≡ ArsEvent.closed c ∷ [])
Run-disputed [] r = absurd (ground (arith, Run-nil r))
Run-disputed (e ∷ es) r =
    let (t, a, later) = Run-cons r in
    let (c, p, q) = from_disputed a in (c, cc (p, Run-closed es (rw q at later)))

Run-evidence : (es : List ArsEvent) → Run evidence_submitted es closed → IsSettlement es
Run-evidence [] r = absurd (ground (arith, Run-nil r))
Run-evidence (e ∷ es) r =
    let (t, a, later) = Run-cons r in
    elim (from_evidence a) [
      | inl (d, p, q) ↦ let (c, tail) = Run-disputed es (rw q at later) in inr (d, c, cc (p, tail))
      | inr (c, p, q) ↦ inl (c, cc (p, Run-closed es (rw q at later)))
    ]

-- Draws, evidence, settlement.
abbrev IsWork : List ArsEvent → Type 0
IsWork es =
    (draws : List ArsEvent) × (v : EvidenceSubmitted) × (settlement : List ArsEvent) × (es
      ≡ draws ++ ArsEvent.evidence_submitted v ∷ settlement)
    × All IsDraw draws
    × IsSettlement settlement

Run-executing : (es : List ArsEvent) → Run executing es closed → IsWork es
Run-executing [] r = absurd (ground (arith, Run-nil r))
Run-executing (e ∷ es) r =
    let (t, a, later) = Run-cons r in
    elim (from_executing a) [
      | inl (d, p, q) ↦
          let (draws, v, settlement, shape, ds, st) = Run-executing es (rw q at later) in
          (e ∷ draws, v, settlement, ap (λ l. e ∷ l) shape, ((d, p), ds), st)
      | inr (v, p, q) ↦ ([], v, es, ap (λ x. x ∷ es) p, tt, Run-evidence es (rw q at later))
    ]

Run-releasable : (es : List ArsEvent) → Run releasable es closed → IsExecution es
Run-releasable [] r = absurd (ground (arith, Run-nil r))
Run-releasable (e ∷ es) r =
    let (t, a, later) = Run-cons r in
    let (d, p, q) = from_releasable a in
    let (draws, v, settlement, shape, ds, st) = Run-executing es (rw q at later) in
    (d, draws, v, settlement, cc (p, shape), ds, st)

-- A job is rejected with nothing after the verdict, or it passed.
abbrev Verdict : PrincipalState → List ArsEvent → Type 0
Verdict s es =
    (u : UnderwritingStarted) × (d : UnderwritingDecided) × (rest : List ArsEvent) × (es
      ≡ underwriting_started u ∷ underwriting_decided d ∷ rest)
    × (((d.passed ≡ true) × Run releasable rest s) ⊎ ((rest ≡ []) × (s ≡ rejected)))

pub Run-Verdict :
    (s : PrincipalState) (e f : ArsEvent) (es : List ArsEvent)
    → Run await_underwriting (e ∷ f ∷ es) s
    → Verdict s (e ∷ f ∷ es)
Run-Verdict s e f es r =
    let (t, a, later) = Run-cons r in
    let (u, p, q) = from_await a in
    let (t', a', rest) = Run-cons (rw q at later) in
    let (d, p', out) = from_underwriting a' in
    elim out [
      | inl (passed, q') ↦ (u, d, es, cc (p, p'), inl (passed, rw q' at rest))
      | inr q' ↦
          let (ended, there) = Run-rejected es (rw q' at rest) in
          (u, d, es, cc (p, p'), inr (ended, there))
    ]

Run-await :
    (es : List ArsEvent)
    → Run await_underwriting es closed
    → (u : UnderwritingStarted) × (d : UnderwritingDecided) × (rest : List ArsEvent) × (es
        ≡ underwriting_started u ∷ underwriting_decided d ∷ rest)
      × (d.passed ≡ true)
      × IsExecution rest
Run-await [] r = absurd (ground (arith, Run-nil r))
Run-await (e ∷ []) r =
    let (t, a, later) = Run-cons r in
    let (u, p, q) = from_await a in absurd (ground (arith, q, Run-nil later))
Run-await (e ∷ f ∷ es) r =
    let (u, d, rest, p, out) = Run-Verdict closed e f es r in
    elim out [
      | inl (passed, work) ↦ (u, d, rest, p, passed, Run-releasable rest work)
      | inr (_, q) ↦ absurd (ground (arith, q))
    ]

skip : {x : ArsEvent} (a : ArsEvent) (l : List ArsEvent) → x ≢ a → Memᴰ x (a ∷ l) → Memᴰ x l
skip a l h (Memᴰ.head e) = absurd (h e)
skip a l h (Memᴰ.tail m) = m

Run-draw :
    (es : List ArsEvent) (s : PrincipalState) (r : PrincipalReleased)
    → Run await_underwriting es s
    → Memᴰ (principal_released r) es
    → (u : UnderwritingStarted) × (d : UnderwritingDecided) × (rest : List ArsEvent) × (es
        ≡ underwriting_started u ∷ underwriting_decided d ∷ rest)
      × (d.passed ≡ true)
      × Memᴰ (principal_released r) rest
Run-draw [] s r run m = elim m [ ]
Run-draw (e ∷ []) s r run m =
    let (t, a, later) = Run-cons run in
    let (u, p, q) = from_await a in absurd (none_here (skip e [] (λ x. cc) m))
  where
    none_here : ¬ Memᴰ (principal_released r) []
    none_here n = elim n [ ]
Run-draw (e ∷ f ∷ es) s r run m =
    let (u, d, rest, p, out) = Run-Verdict s e f es run in
    let there =
      skip (underwriting_decided d) rest (λ x. cc)
        (skip (underwriting_started u) (underwriting_decided d ∷ rest) (λ x. cc) (rw p at m)) in
    elim out [
      | inl (passed, work) ↦ (u, d, rest, p, passed, there)
      | inr (ended, q) ↦ absurd (nowhere (rw ended at there))
    ]
  where
    nowhere : ¬ Memᴰ (principal_released r) []
    nowhere n = elim n [ ]

-- The shape of the log of a closed job.
abbrev pub IsClosedLog : List ArsEvent → Type 0
IsClosedLog log =
    (o : JobOpened) × (u : UnderwritingStarted) × (d : UnderwritingDecided) × (es : List ArsEvent)
    × (log ≡ job_opened o ∷ underwriting_started u ∷ underwriting_decided d ∷ es)
    × (d.passed ≡ true)
    × IsExecution es

-- A log that replays to a closed job is, in this order: the opening, the start of underwriting, a
-- passed verdict, one draw of principal or more, the evidence, and the closing, with or without a
-- dispute before it. No closed job skipped the underwriting, the draw or the evidence.
pub IsClosedLog-shape :
    (log : List ArsEvent) (job : Job) → replay log ≡ ok job → job.state ≡ closed → IsClosedLog log
IsClosedLog-shape log job h c =
    let (o, es, p, ids, (s, run, q)) = (replay_iff log job).0 h in
    let (u, d, rest, p', passed, work) =
      Run-await es (rw (sym (ap (λ (j : Job). j.state) q) ∙ c) at run) in
    (o, u, d, rest, cc (p, p'), passed, work)

-- If a log that replays holds a draw of principal, it begins with the opening, the start of
-- underwriting and a passed verdict, and the draw comes after them.
pub draw_needs_verdict :
    (log : List ArsEvent) (job : Job) (r : PrincipalReleased)
    → replay log ≡ ok job
    → Memᴰ (principal_released r) log
    → (o : JobOpened) × (u : UnderwritingStarted) × (d : UnderwritingDecided) × (rest : List
        ArsEvent)
      × (log ≡ job_opened o ∷ underwriting_started u ∷ underwriting_decided d ∷ rest)
      × (d.passed ≡ true)
      × Memᴰ (principal_released r) rest
draw_needs_verdict log job r h m =
    let (o, es, p, ids, (s, run, q)) = (replay_iff log job).0 h in
    let later = skip (job_opened o) es (λ e. cc) (rw p at m) in
    let (u, d, rest, p', passed, there) = Run-draw es s r run later in
    (o, u, d, rest, cc (p, p'), passed, there)
