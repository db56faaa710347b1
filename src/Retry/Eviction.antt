-- ===== src/Retry/Eviction.antt =====
-- What a full queue gives up: the chat message that was queued first, and nothing else.
use autostream_discord_bot.Base.{
  ℕ, ◌≤◌, String, true, false, ◌≡◌, refl, ap, ◌∙◌, ◌⊎◌, inl, inr, some, none, List, [], ◌∷◌, arith,
  is_empty, str_eq, eq_iff, lookup, delete, IsMap, lookup-head, lookup-tail, lookup-delete,
  Bool-cases,
}
use autostream_discord_bot.Retry.{
  Report, Queue, is_chat, older_chat, oldest_chat, drop_oldest_chat, make_room,
}
use autostream_discord_bot.Retry.Selection.{Keyed, Keyed-tail, Keyed-head}

older_chat-cases :
    (k : String) (t : ℕ) (j : String) (x : Report)
    → (older_chat k t j x ≡ (k, t)) ⊎ ((older_chat k t j x ≡ (j, x.queued_at)) × (is_chat x ≡ true))
unfolding older_chat
older_chat-cases k t j x = ground arith

older_chat-named :
    (k : String) (t : ℕ) (j : String) (x : Report)
    → is_empty j ≡ false
    → is_empty k ≡ false
    → (is_empty (older_chat k t j x).0 ≡ false) × ((older_chat k t j x).1 ≤ t)
unfolding older_chat
older_chat-named k t j x h named = ground arith

older_chat-chat :
    (k : String) (t : ℕ) (j : String) (x : Report)
    → is_empty j ≡ false
    → is_chat x ≡ true
    → (is_empty (older_chat k t j x).0 ≡ false) × ((older_chat k t j x).1 ≤ x.queued_at)
unfolding older_chat
older_chat-chat k t j x h chat = ground arith

-- The key that the scan ends with is the one it began with, or that of a chat message.
pub oldest_chat-found :
    (k : String) (t : ℕ) (m : List (String × Report))
    → IsMap m
    → (oldest_chat k t m ≡ k)
      ⊎ ((x : Report) × (lookup (oldest_chat k t m) m ≡ some x) × (is_chat x ≡ true))
unfolding oldest_chat
oldest_chat-found k t [] u = inl refl
oldest_chat-found k t ((j, x) ∷ m) u =
    elim (oldest_chat-found (older_chat k t j x).0 (older_chat k t j x).1 m u.1) [
      | inr (y, e, c) ↦ inr (y, lookup-tail j _ x y m u e, c)
      | inl same ↦ elim (older_chat-cases k t j x) [
        | inl old ↦ inl (same ∙ ap (λ (p : String × ℕ). p.0) old)
        | inr (new, c) ↦ inr (x, lookup-head _ j x m (same ∙ ap (λ (p : String × ℕ). p.0) new), c)
      ]
    ]

oldest_chat-keeps :
    (k : String) (t : ℕ) (m : List (String × Report))
    → IsMap m
    → Keyed m
    → is_empty k ≡ false
    → is_empty (oldest_chat k t m) ≡ false
unfolding oldest_chat
oldest_chat-keeps k t [] u keyed h = h
oldest_chat-keeps k t ((j, x) ∷ m) u keyed h =
    oldest_chat-keeps (older_chat k t j x).0 (older_chat k t j x).1 m u.1 (Keyed-tail j x m u keyed)
      (older_chat-named k t j x (Keyed-head j x m keyed).1 h).0

-- If a chat message is pending, the scan finds one.
oldest_chat-finds :
    (k : String) (t : ℕ) (m : List (String × Report))
    → IsMap m
    → Keyed m
    → (i : String) (y : Report) → lookup i m ≡ some y
    → is_chat y ≡ true
    → is_empty (oldest_chat k t m) ≡ false
unfolding oldest_chat lookup
oldest_chat-finds k t [] u keyed i y e c = cc
oldest_chat-finds k t ((j, x) ∷ m) u keyed i y e c = elim (Bool-cases (str_eq j i)) [
  | inl here ↦
      let same : x ≡ y = ground arith in
      oldest_chat-keeps (older_chat k t j x).0 (older_chat k t j x).1 m u.1
        (Keyed-tail j x m u keyed)
        (older_chat-chat k t j x (Keyed-head j x m keyed).1 (ap is_chat same ∙ c)).0
  | inr there ↦
      oldest_chat-finds (older_chat k t j x).0 (older_chat k t j x).1 m u.1
        (Keyed-tail j x m u keyed) i y (ground arith) c
]

delete-other :
    (o k : String) (m : List (String × Report)) (x y : Report)
    → lookup o m ≡ some y
    → is_chat y ≡ true
    → lookup k m ≡ some x
    → is_chat x ≡ false
    → lookup k (delete o m) ≡ some x
delete-other o k m x y e chat f other = elim (Bool-cases (str_eq o k)) [
  | inl same ↦ cc ((eq_iff o k).0 same)
  | inr apart ↦ rw (lookup-delete o k m, apart) f
]

-- A report other than a chat message stays pending when the oldest chat message is dropped.
drop_oldest_chat-lookup :
    (q r : Queue) (k : String) (x : Report)
    → IsMap q.pending
    → drop_oldest_chat q ≡ some r
    → lookup k q.pending ≡ some x
    → is_chat x ≡ false
    → lookup k r.pending ≡ some x
unfolding drop_oldest_chat
drop_oldest_chat-lookup q r k x u made e other = elim (oldest_chat-found "" 0 q.pending u) [
  | inl blank ↦ ground (arith, ap is_empty blank)
  | inr (y, f, chat) ↦
      ground (arith, delete-other (oldest_chat "" 0 q.pending) k q.pending x y f chat e other)
]

-- If the pending reports are a map, one that is not a chat message stays pending when room is
-- made.
make_room-lookup :
    (q r : Queue) (key k : String) (x : Report)
    → IsMap q.pending
    → make_room q key ≡ some r
    → lookup k q.pending ≡ some x
    → is_chat x ≡ false
    → lookup k r.pending ≡ some x
unfolding make_room
make_room-lookup q r key k x u made e other = ground (arith, drop_oldest_chat-lookup q r k x u)

-- No room is made only if no chat message is pending.
pub make_room-none :
    (q : Queue) (key k : String) (x : Report)
    → IsMap q.pending
    → Keyed q.pending
    → make_room q key ≡ none
    → lookup k q.pending ≡ some x
    → is_chat x ≡ false
unfolding make_room drop_oldest_chat
make_room-none q key k x u keyed made e = elim (Bool-cases (is_chat x)) [
  | inr other ↦ other
  | inl chat ↦ ground (arith, oldest_chat-finds "" 0 q.pending u keyed k x e chat)
]

-- Making room leaves the sequence counter and the stop flag alone.
pub make_room-counters :
    (q r : Queue) (key : String)
    → make_room q key ≡ some r
    → (r.sequence ≡ q.sequence) × (r.stopped ≡ q.stopped)
unfolding make_room drop_oldest_chat
make_room-counters q r key made = ground arith
