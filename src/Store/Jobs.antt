-- ===== src/Store/Jobs.antt =====
-- `jobIds` (src/store.ts) after a sequence of events.
use mathlib.Core.List.{append_assoc, append-nil, Nodup, Nodup-nil}
use ars_solana.Prelude.{
  String, ◌≡◌, refl, sym, ap, ◌∙◌, inl, inr, List, [], ◌∷◌, ◌++◌, ok, >>=-eq-ok, ok-injective,
  Nodup-append_last,
}
use ars_solana.Prelude.Entries.{keys, keys-set_new, keys-set_old, get-none_not_mem}
use ars_solana.Events.{ArsEvent, job_opened, event_job_id}
use ars_solana.Store.{InMemoryEventStore, empty, append, log, job_ids}
use ars_solana.Store.Replays.{IsOpening}
use ars_solana.Store.Valid.{append_all, append-accepts, append-IsValid, IsValid}

-- The ids of the jobs that a sequence of events opens, in their order.
abbrev pub opened_ids : List ArsEvent → List String
opened_ids [] = []
opened_ids (job_opened e ∷ events) = e.job_id ∷ opened_ids events
opened_ids (_ ∷ events) = opened_ids events

opened_ids-skip :
    (event : ArsEvent) (events : List ArsEvent)
    → ¬ IsOpening event
    → opened_ids (event ∷ events) ≡ opened_ids events
opened_ids-skip (job_opened e) events n = absurd (n (e, refl))
opened_ids-skip event events n = refl

job_ids-append :
    (store next : InMemoryEventStore) (event : ArsEvent) (events : List ArsEvent)
    → IsValid store
    → Nodup (job_ids store)
    → append store event ≡ ok next
    → (job_ids next ++ opened_ids events ≡ job_ids store ++ opened_ids (event ∷ events))
      × Nodup (job_ids next)
unfolding job_ids
job_ids-append store next event events v n h =
    let (p, r, continues) = append-accepts store next event v h in
    let events_now = log store (event_job_id event) ++ event ∷ [] in
    elim continues [
      | inl (missing, (e, q)) ↦
          let added = keys-set_new (event_job_id event) events_now store.logs missing in
          (
            rw (p, added, q) (append_assoc (keys store.logs) (e.job_id ∷ []) (opened_ids events)),
            rw (p, added)
                (Nodup-append_last (keys store.logs) (event_job_id event) n
                  (get-none_not_mem (event_job_id event) store.logs missing)),
          )
      | inr (old, there, later, edge) ↦
          let same = keys-set_old (event_job_id event) events_now old store.logs there in
          (rw (p, same, opened_ids-skip event events later) refl, rw (p, same) n)
    ]

-- An event that opens no job adds none.
pub job_ids-append_later :
    (store next : InMemoryEventStore) (event : ArsEvent)
    → IsValid store
    → ¬ IsOpening event
    → append store event ≡ ok next
    → job_ids next ≡ job_ids store
unfolding job_ids
job_ids-append_later store next event v n h =
    let (p, r, continues) = append-accepts store next event v h in
    let events_now = log store (event_job_id event) ++ event ∷ [] in
    elim continues [
      | inl (missing, opening) ↦ absurd (n opening)
      | inr (old, there, m, edge) ↦
          let same = keys-set_old (event_job_id event) events_now old store.logs there in
          rw (p, same) refl
    ]

after_all :
    (store last : InMemoryEventStore) (events : List ArsEvent)
    → IsValid store
    → Nodup (job_ids store)
    → append_all store events ≡ ok last
    → (job_ids last ≡ job_ids store ++ opened_ids events) × Nodup (job_ids last)
after_all store last [] v n h =
    let same = ok-injective h in
    (ap job_ids (sym same) ∙ sym (append-nil (job_ids store)), rw (← same) n)
after_all store last (event ∷ events) v n h =
    let (next, p, q) = >>=-eq-ok (append store event) _ h in
    let (ids, distinct) = job_ids-append store next event events v n p in
    let (later, k) = after_all next last events (append-IsValid store next event v p) distinct q in
    (later ∙ ids, k)

-- After a sequence of events that a new store accepted, `job_ids` gives the ids of the `JobOpened`
-- events, in their order, and none of them twice.
pub job_ids-append_all :
    (events : List ArsEvent) (store : InMemoryEventStore)
    → append_all empty events ≡ ok store
    → (job_ids store ≡ opened_ids events) × Nodup (job_ids store)
unfolding job_ids
job_ids-append_all events store h = after_all empty store events tt Nodup-nil h
