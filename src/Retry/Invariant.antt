-- ===== src/Retry/Invariant.antt =====
-- What holds of the queue between two critical sections, and of the report in flight.
-- `settle` is the end of `deliverWorkerEventRetry` (internal/jobs/event_retry.go, 399 to 410).
use autostream_discord_bot.Base.{
  ℕ, ◌+◌, ◌<◌, String, Bool, true, false, not, ◌||◌, ◌≡◌, refl, ap, sym, subst, ◌∙◌, ◌⊎◌, inl, inr,
  some, none, Option, [], arith, next64, get_or, eq_iff, is_empty, lookup, insert, delete, has_key,
  IsMap, insert-IsMap, delete-IsMap, lookup-insert, lookup-delete, leb, if◌then◌else◌, if_case,
  ◌==◌,
}
use autostream_discord_bot.Retry.Classify.{PublishFault, should_retry_worker_publish}
use autostream_discord_bot.Retry.{
  Report, Queue, Next, new_queue, stop, drop_oldest_chat, oldest_chat, make_room, admit, enqueue,
  next, signal, answer, pick, no_report, has_latest, retry_delay, max_attempts, mark_delivered,
  mark_dropped, requeue, supersede,
}
use autostream_discord_bot.Retry.Eviction.{make_room-counters}
use autostream_discord_bot.Retry.Coalescing.{enqueue-cases, queued}

-- The result `err` of a delivery settles what becomes of the report; `cancelled` is `ctx.Err()`.
unfoldable pub settle : Queue → Report → Option PublishFault → Bool → ℕ → ℕ → Queue
settle q r none cancelled now later = mark_delivered q r
settle q r (some f) cancelled now later =
    if not (should_retry_worker_publish (some f)) || cancelled || leb max_attempts r.attempts
    then mark_dropped q r
    else requeue q r now later

-- A pending report stands under its key, which is not empty; it is the latest of its key, and a
-- try is left to it.
abbrev pub Entries : Queue → Type 0
Entries q =
    (k : String) (r : Report)
    → lookup k q.pending ≡ some r
    → (r.key ≡ k)
      × (is_empty k ≡ false)
      × (get_or k 0 q.latest ≡ r.sequence)
      × (r.attempts < max_attempts)

pub record Inv (q : Queue) : Type 0 where
  pub is_map : IsMap q.pending
  pub entries : Entries q
  pub emptied : q.stopped ≡ true → q.pending ≡ []

pub new_queue-Inv : Inv new_queue
unfolding new_queue lookup
new_queue-Inv = record { is_map = tt; entries = λ k r e. cc; emptied = λ e. refl }

pub stop-pending : (q : Queue) → Inv q → (stop q).pending ≡ []
unfolding stop
stop-pending q v = ground (arith, v.emptied)

pub stop-Inv : (q : Queue) → Inv q → Inv (stop q)
unfolding lookup
stop-Inv q v = record {
  is_map = rw (stop-pending q v) tt;
  entries = λ k r e. cc (ap (lookup k) (stop-pending q v));
  emptied = λ h. stop-pending q v;
}

-- Dropping a key from both maps keeps the invariant.
drop-Entries :
    (q : Queue) (key : String)
    → Entries q
    → Entries (record q { pending = delete key q.pending; latest = delete key q.latest })
drop-Entries q key entries k r e =
    ground (arith, lookup-delete key k q.pending, lookup-delete key k q.latest, entries k r)

drop-Inv :
    (q : Queue) (key : String)
    → Inv q
    → Inv (record q { pending = delete key q.pending; latest = delete key q.latest })
drop-Inv q key v = record {
  is_map = delete-IsMap key q.pending v.is_map;
  entries = drop-Entries q key v.entries;
  emptied = λ h. ap (delete key) (v.emptied h) ∙ unfold delete in refl;
}

pub make_room-cases :
    (q r : Queue) (key : String)
    → make_room q key ≡ some r
    → (r ≡ q)
      ⊎ (r ≡ record q {
        pending = delete (oldest_chat "" 0 q.pending) q.pending;
        latest = delete (oldest_chat "" 0 q.pending) q.latest;
      })
unfolding make_room drop_oldest_chat
make_room-cases q r key made = ground arith

make_room-Inv : (q r : Queue) (key : String) → Inv q → make_room q key ≡ some r → Inv r
make_room-Inv q r key v made = elim (make_room-cases q r key made) [
  | inl same ↦ subst Inv (sym same) v
  | inr dropped ↦ subst Inv (sym dropped) (drop-Inv q (oldest_chat "" 0 q.pending) v)
]

admit-Entries :
    (q : Queue) (x : Report) (now : ℕ)
    → is_empty x.key ≡ false
    → Entries q
    → Entries (admit q x now)
unfolding admit
admit-Entries q x now named entries k r e = ground (
  arith,
  eq_iff x.key k,
  lookup-insert x.key k (queued q x now) q.pending,
  lookup-insert x.key k (next64 q.sequence) q.latest,
  entries k r,
)

admit-Inv :
    (q : Queue) (x : Report) (now : ℕ)
    → is_empty x.key ≡ false
    → q.stopped ≡ false
    → Inv q
    → Inv (admit q x now)
unfolding admit
admit-Inv q x now named live v = record {
  is_map = insert-IsMap x.key (queued q x now) q.pending v.is_map;
  entries = unfold admit in admit-Entries q x now named v.entries;
  emptied = λ h. cc;
}

-- A new report keeps the invariant.
pub enqueue-Inv :
    (q : Queue) (x : Report) (now : ℕ) → is_empty x.key ≡ false → Inv q → Inv (enqueue q x now).0
enqueue-Inv q x now named v = elim (enqueue-cases q x now) [
  | inl (refused, _) ↦ subst Inv (sym (ap (λ (p : Queue × Bool). p.0) refused)) v
  | inr (room, made, live, taken) ↦ subst Inv (sym (ap (λ (p : Queue × Bool). p.0) taken)) (
      admit-Inv room x now named (ground (arith, make_room-counters q room x.key))
        (make_room-Inv q room x.key v made))
]

pub mark_dropped-Inv : (q : Queue) (r : Report) → Inv q → Inv (mark_dropped q r)
unfolding mark_dropped
mark_dropped-Inv q r v = if_case Inv (has_latest q r) (λ current. drop-Inv q r.key v) (λ old. v)

mark_delivered-Inv : (q : Queue) (r : Report) → Inv q → Inv (mark_delivered q r)
unfolding mark_delivered
mark_delivered-Inv q r v = if_case Inv (has_latest q r) (λ current. drop-Inv q r.key v) (λ old. v)

signal-Inv : (q : Queue) → Inv q → Inv (signal q)
unfolding signal
signal-Inv q v = record { is_map = v.is_map; entries = v.entries; emptied = v.emptied }

pub supersede-Inv : (q : Queue) (key : String) → Inv q → Inv (supersede q key)
unfolding supersede
supersede-Inv q key v = signal-Inv _ (if_case Inv q.stopped (λ over. v) (λ live. drop-Inv q key v))

-- A report that may be tried again joins the pending ones.
restore-Inv :
    (q : Queue) (r x : Report)
    → has_latest q r ≡ true
    → q.stopped ≡ false
    → is_empty r.key ≡ false
    → r.attempts < max_attempts
    → (x.key ≡ r.key) × (x.sequence ≡ r.sequence) × (x.attempts ≡ r.attempts)
    → Inv q
    → Inv (record q { pending = insert r.key x q.pending })
restore-Inv q r x current live named left same v = record {
  is_map = insert-IsMap r.key x q.pending v.is_map;
  entries =
      λ k y e. ground (arith, eq_iff r.key k, lookup-insert r.key k x q.pending, v.entries k y);
  emptied = λ h. cc;
}

forget-Inv :
    (q : Queue) (r : Report)
    → has_key r.key q.pending ≡ false
    → Inv q
    → Inv (record q { latest = delete r.key q.latest })
forget-Inv q r absent v = record {
  is_map = v.is_map;
  entries = λ k y e. ground (
    arith,
    eq_iff r.key k,
    lookup-delete r.key k q.latest,
    ap (λ (j : String). has_key j q.pending),
    v.entries k y e,
  );
  emptied = v.emptied;
}

requeue-Inv :
    (q : Queue) (r : Report) (now later : ℕ)
    → is_empty r.key ≡ false
    → Inv q
    → Inv (requeue q r now later)
unfolding requeue
requeue-Inv q r now later named v =
    if_case Inv (q.stopped || not (has_latest q r)) (λ over. v)
      λ current.
        if_case Inv (has_key r.key q.pending) (λ newer. v)
          λ absent.
            if_case Inv (leb max_attempts r.attempts) (λ spent. forget-Inv q r absent v)
              λ left. signal-Inv _ (
                restore-Inv q r
                  (record r { next_try_at = now + retry_delay r.attempts; queued_at = later })
                  (ground arith) (ground arith) named (ground arith) (refl, refl, refl) v)

pub settle-Inv :
    (q : Queue) (r : Report) (e : Option PublishFault) (cancelled : Bool) (now later : ℕ)
    → is_empty r.key ≡ false
    → Inv q
    → Inv (settle q r e cancelled now later)
unfolding settle
settle-Inv q r none cancelled now later named v = mark_delivered-Inv q r v
settle-Inv q r (some f) cancelled now later named v =
    if_case Inv _ (λ over. mark_dropped-Inv q r v) (λ again. requeue-Inv q r now later named v)

-- Taking a report out leaves the entries of the others.
take-Inv : (q : Queue) (key : String) → Inv q → Inv (record q { pending = delete key q.pending })
take-Inv q key v = record {
  is_map = delete-IsMap key q.pending v.is_map;
  entries = λ k y e. ground (arith, lookup-delete key k q.pending, v.entries k y);
  emptied = λ h. ap (delete key) (v.emptied h) ∙ unfold delete in refl;
}

answer-Inv : (q : Queue) (later : ℕ) (p : Report × ℕ) → Inv q → Inv (answer q later p).0
unfolding answer
answer-Inv q later (s, t) v =
    if_case (λ (a : Queue × Next). Inv a.0) (not (is_empty s.key)) (λ found. take-Inv q s.key v)
      λ nothing.
        if_case (λ (a : Queue × Next). Inv a.0) (t == 0 || leb t later) (λ never. v) (λ wait. v)

pub next-Inv : (q : Queue) (now later : ℕ) → Inv q → Inv (next q now later).0
unfolding next
next-Inv q now later v = answer-Inv q later (pick now no_report 0 q.pending) v
