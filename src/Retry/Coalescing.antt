-- ===== src/Retry/Coalescing.antt =====
-- The newest report of a key is the one that counts (internal/jobs/event_retry.go): `enqueue`
-- against the operations that a delivery in flight ends with.
use autostream_discord_bot.Base.{
  ℕ, ◌+◌, ◌≤◌, String, true, false, ◌≡◌, ◌≢◌, refl, ap, ◌∙◌, ◌⊎◌, inl, inr, some, none, List, arith,
  next64, lookup, has_key, IsMap, lookup-head, lookup-tail, any, [], ◌∷◌, lookup-insert_self,
  length, Bool-cases, Option-cases,
}
use autostream_discord_bot.Retry.{
  Report, Queue, is_chat, make_room, admit, enqueue, max_pending, retry_base, is_latest, has_latest,
  mark_delivered, mark_dropped, requeue,
}
use autostream_discord_bot.Retry.Selection.{Keyed}
use autostream_discord_bot.Retry.Eviction.{make_room-none, make_room-counters}

-- The report as `enqueue` stores it.
abbrev pub queued : Queue → Report → ℕ → Report
queued q r now = record r {
  sequence = next64 q.sequence;
  attempts = 0;
  queued_at = now;
  next_try_at = now + retry_base;
}

admit-newest :
    (q : Queue) (r : Report) (now : ℕ)
    → (lookup r.key (admit q r now).pending ≡ some (queued q r now))
      × (lookup r.key (admit q r now).latest ≡ some (next64 q.sequence))
      × ((admit q r now).stopped ≡ q.stopped)
unfolding admit
admit-newest q r now = (
  lookup-insert_self r.key (queued q r now) q.pending,
  lookup-insert_self r.key (next64 q.sequence) q.latest,
  refl,
)

-- A report whose key has a newer one is not the latest, and the end of its delivery, delivered,
-- dropped or put back, leaves the queue as it was.
stale :
    (q : Queue) (old : Report) (seq now later : ℕ)
    → lookup old.key q.latest ≡ some seq
    → old.sequence ≢ seq
    → (is_latest q old ≡ false)
      × (mark_delivered q old ≡ q)
      × (mark_dropped q old ≡ q)
      × (requeue q old now later ≡ q)
unfolding is_latest mark_delivered mark_dropped requeue
stale q old seq now later e differs =
    let other : has_latest q old ≡ false = ground arith in
    (ground arith, rw other, rw other, ground arith)

-- How `enqueue` ends: refused with the queue as it was, or taken in after room was made.
pub enqueue-cases :
    (q : Queue) (r : Report) (now : ℕ)
    → ((enqueue q r now ≡ (q, false)) × ((q.stopped ≡ true) ⊎ (make_room q r.key ≡ none)))
      ⊎ ((room : Queue) × (make_room q r.key ≡ some room)
          × (q.stopped ≡ false)
          × (enqueue q r now ≡ (admit room r now, true)))
unfolding enqueue
enqueue-cases q r now = elim (Bool-cases q.stopped) [
  | inl over ↦ inl (ground arith, inl over)
  | inr live ↦ elim (Option-cases (make_room q r.key)) [
    | inl full ↦ inl (ground arith, inr full)
    | inr (room, made) ↦ inr (room, made, live, ground arith)
  ]
]

-- A report that is taken in is pending under its key with the next sequence number, no attempts
-- and 250 ms to its first try, and is the latest of its key.
enqueue-newest :
    (q q' : Queue) (r : Report) (now : ℕ)
    → enqueue q r now ≡ (q', true)
    → (lookup r.key q'.pending ≡ some (queued q r now)) × (is_latest q' (queued q r now) ≡ true)
unfolding is_latest
enqueue-newest q q' r now h = elim (enqueue-cases q r now) [
  | inl (refused, _) ↦ cc
  | inr (room, made, live, taken) ↦
      ground (arith, admit-newest room r now, make_room-counters q room r.key)
]

enqueue-latest :
    (q q' : Queue) (r : Report) (now : ℕ)
    → enqueue q r now ≡ (q', true)
    → lookup r.key q'.latest ≡ some (next64 q.sequence)
enqueue-latest q q' r now h = elim (enqueue-cases q r now) [
  | inl (refused, _) ↦ cc
  | inr (room, made, live, taken) ↦
      ground (arith, admit-newest room r now, make_room-counters q room r.key)
]

-- A report that is taken in is pending under its key with the next sequence number, no attempts
-- and 250 ms to its first try, and is the latest of its key; an earlier report of the key with
-- another sequence number is not the latest any more, and the end of its delivery, delivered,
-- dropped or put back, leaves the queue as it is.
pub enqueue-supersedes :
    (q q' : Queue) (r old : Report) (at now later : ℕ)
    → enqueue q r at ≡ (q', true)
    → old.key ≡ r.key
    → old.sequence ≢ next64 q.sequence
    → (is_latest q' old ≡ false)
      × (mark_delivered q' old ≡ q')
      × (mark_dropped q' old ≡ q')
      × (requeue q' old now later ≡ q')
      × (lookup r.key q'.pending ≡ some (queued q r at))
      × (is_latest q' (queued q r at) ≡ true)
enqueue-supersedes q q' r old at now later h same differs =
    let (alone, delivered, dropped, back) =
      stale q' old (next64 q.sequence) now later
        (ap (λ k. lookup k q'.latest) same ∙ enqueue-latest q q' r at h) differs in
    let (pending, latest) = enqueue-newest q q' r at h in
    (alone, delivered, dropped, back, pending, latest)

-- A map in which no key leads to a chat message holds none.
no_chat :
    (m : List (String × Report))
    → IsMap m
    → ((k : String) (x : Report) → lookup k m ≡ some x → is_chat x ≡ false)
    → any (λ p. is_chat p.1) m ≡ false
no_chat [] u h = refl
no_chat ((j, x) ∷ m) u h =
    rw (h j x (lookup-head j j x m refl)) (no_chat m u.1 λ k y e. h k y (lookup-tail j k x y m u e))

-- If the pending reports are a map in which each stands under its own key, which is not empty: a
-- report is refused only when the queue is stopped, or full with the key not pending and no chat
-- message to give up; the queue is then as it was.
pub enqueue-refused :
    (q q' : Queue) (r : Report) (now : ℕ)
    → IsMap q.pending
    → Keyed q.pending
    → enqueue q r now ≡ (q', false)
    → (q' ≡ q)
      × ((q.stopped ≡ true)
          ⊎ ((has_key r.key q.pending ≡ false)
              × (max_pending ≤ length q.pending)
              × (any (λ p. is_chat p.1) q.pending ≡ false)))
unfolding make_room
enqueue-refused q q' r now u keyed h = elim (enqueue-cases q r now) [
  | inr (room, made, live, taken) ↦ cc
  | inl (refused, inl over) ↦ (ground arith, inl over)
  | inl (refused, inr full) ↦ (
    ground arith,
    inr (
      ground arith,
      ground arith,
      no_chat q.pending u λ k x e. make_room-none q r.key k x u keyed full e,
    ),
  )
]
