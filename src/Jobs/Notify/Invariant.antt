-- ===== src/Jobs/Notify/Invariant.antt =====
-- The receipts of the calls that send (internal/jobs/notification.go): one call for each, kept by
-- everything that happens to the receipts.
use autostream_discord_bot.Base.{
  ℕ, ◌⊎◌, Bool-cases, ◌≤◌, ◌<◌, String, true, false, ◌≡◌, sym, ◌∙◌, subst, none, some, List, [],
  ◌∷◌, arith, ◌==◌, length, eq_iff, str_eq, lookup, insert, delete, IsMap, has_key, insert-IsMap,
  delete-IsMap, lookup-insert, lookup-delete, lookup-insert_self, lookup-delete_self, length-insert,
  length-delete-le, Option-cases, inl, inr,
}
use autostream_discord_bot.Jobs.{Receipt}
use autostream_discord_bot.Jobs.Notify.{complete, prune, max_receipts}
use autostream_discord_bot.Jobs.Notify.Repeat.{complete-found}
use autostream_discord_bot.Jobs.Notify.Scan.{IsUnderWay}
use autostream_discord_bot.Jobs.Notify.Receipts.{
  prune-IsSettled, prune-under_way, prune-was, length-prune-le,
}

-- The receipt of a call that sends.
abbrev pub Owns : List (String × Receipt) → String → ℕ → Type 0
Owns m key id = (r : Receipt) × (lookup key m ≡ some r) × (r.id ≡ id) × IsUnderWay r

-- A call that sends has the receipt of its key to itself, a receipt that waits has its call, and
-- there are at most 2048 receipts.
pub record ReceiptsInv (m : List (String × Receipt)) (flights : List (String × ℕ)) : Type 0 where
  pub is_map : IsMap m
  pub flights_map : IsMap flights
  pub bounded : length m ≤ max_receipts
  pub owned : (key : String) (id : ℕ) → lookup key flights ≡ some id → Owns m key id
  pub awaited :
      (key : String) (r : Receipt)
      → lookup key m ≡ some r
      → IsUnderWay r
      → lookup key flights ≡ some r.id

pub prune-ReceiptsInv :
    (now : ℕ) (m : List (String × Receipt)) (flights : List (String × ℕ))
    → ReceiptsInv m flights
    → ReceiptsInv (prune now m) flights
prune-ReceiptsInv now m flights v = record {
  is_map = (prune-IsSettled now m v.is_map).0;
  flights_map = v.flights_map;
  bounded = omega (arith, length-prune-le now m, v.bounded);
  owned = λ key id h.
      let (r, found, same, waits) = v.owned key id h in
      (r, prune-under_way now m key r v.is_map found waits, same, waits);
  awaited = λ key r found waits. v.awaited key r (prune-was now m key r v.is_map found).0 waits;
}

Owns-other :
    (n m : List (String × Receipt)) (key : String) (id : ℕ)
    → lookup key n ≡ lookup key m
    → Owns m key id
    → Owns n key id
Owns-other n m key id same (r, found, is_its, waits) = (r, same ∙ found, is_its, waits)

-- A new receipt and its call.
pub reserve-ReceiptsInv :
    (m : List (String × Receipt)) (flights : List (String × ℕ)) (key : String) (r : Receipt)
    → lookup key m ≡ none
    → length m < max_receipts
    → IsUnderWay r
    → ReceiptsInv m flights
    → ReceiptsInv (insert key r m) ((key, r.id) ∷ flights)
unfolding lookup
reserve-ReceiptsInv m flights key r absent room waits v = record {
  is_map = insert-IsMap key r m v.is_map;
  flights_map = (no_flight (Option-cases (lookup key flights)), v.flights_map);
  bounded = ground (arith, length-insert key r m);
  owned = λ other id h. owner other id (Bool-cases (str_eq key other)) h;
  awaited = λ other x found wait.
      ground (arith, lookup-insert key other r m, v.awaited other x, eq_iff key other);
}
  where
    no_flight :
        (lookup key flights ≡ none) ⊎ ((id : ℕ) × (lookup key flights ≡ some id))
        → has_key key flights ≡ false
    no_flight (inl e) = ground (arith, e)
    no_flight (inr (id, e)) = let (x, found, is_its, waits) = v.owned key id e in cc (found, absent)

    owner :
        (other : String) (id : ℕ)
        → (str_eq key other ≡ true) ⊎ (str_eq key other ≡ false)
        → lookup other ((key, r.id) ∷ flights) ≡ some id
        → Owns (insert key r m) other id
    owner other id (inl same) h =
        (r, ground (arith, lookup-insert key other r m), ground arith, waits)
    owner other id (inr differs) h =
        Owns-other (insert key r m) m other id (ground (arith, lookup-insert key other r m))
          (v.owned other id (ground arith))

-- A call that comes back is gone, and so is its receipt, or it is completed.
module _ (m n : List (String × Receipt)) (flights : List (String × ℕ)) (key : String) where
  left-ReceiptsInv :
      ReceiptsInv m flights
      → IsMap n
      → length n ≤ max_receipts
      → ((other : String) → str_eq key other ≡ false → lookup other n ≡ lookup other m)
      → ((r : Receipt) → lookup key n ≡ some r → (r.completed_at == 0) ≡ false)
      → ReceiptsInv n (delete key flights)
  left-ReceiptsInv v u room others own = record {
    is_map = u;
    flights_map = delete-IsMap key flights v.flights_map;
    bounded = room;
    owned = λ other id h.
        Owns-other n m other id (others other (ground (arith, lookup-delete key other flights)))
          (v.owned other id (ground (arith, lookup-delete key other flights)));
    awaited = λ other r found waits. kept other r (Bool-cases (str_eq key other)) found waits;
  }
    where
      kept :
          (other : String) (r : Receipt)
          → (str_eq key other ≡ true) ⊎ (str_eq key other ≡ false)
          → lookup other n ≡ some r
          → IsUnderWay r
          → lookup other (delete key flights) ≡ some r.id
      kept other r (inl same) found waits = ground (arith, own r, eq_iff key other)
      kept other r (inr differs) found waits =
          ground (arith, lookup-delete key other flights, others other differs, v.awaited other r)

lookup-insert_other :
    (m : List (String × Receipt)) (key other : String) (r : Receipt)
    → str_eq key other ≡ false
    → lookup other (insert key r m) ≡ lookup other m
lookup-insert_other m key other r h = ground (arith, lookup-insert key other r m)

lookup-delete_other :
    (m : List (String × Receipt)) (key other : String)
    → str_eq key other ≡ false
    → lookup other (delete key m) ≡ lookup other m
lookup-delete_other m key other h = ground (arith, lookup-delete key other m)

pub complete-ReceiptsInv :
    (m : List (String × Receipt)) (flights : List (String × ℕ)) (key message : String) (id now : ℕ)
    → lookup key flights ≡ some id
    → (now == 0) ≡ false
    → ReceiptsInv m flights
    → ReceiptsInv (complete key id message now m) (delete key flights)
complete-ReceiptsInv m flights key message id now flying timed v =
    let (r, found, same, waits) = v.owned key id flying in
    let filled : Receipt = record r { message_id = message; completed_at = now } in
    subst (λ x. ReceiptsInv x (delete key flights)) (sym (completed r found same))
      (left-ReceiptsInv m (insert key filled m) flights key v (insert-IsMap key filled m v.is_map)
        (ground (arith, length-insert key filled m, v.bounded, found))
        (λ other. lookup-insert_other m key other filled)
        λ x h. ground (arith, lookup-insert_self key filled m))
  where
    completed :
        (r : Receipt)
        → lookup key m ≡ some r
        → r.id ≡ id
        → complete key id message now m
          ≡ insert key (record r { message_id = message; completed_at = now }) m
    completed r found same = complete-found key id now message m r found same

pub delete-ReceiptsInv :
    (m : List (String × Receipt)) (flights : List (String × ℕ)) (key : String)
    → ReceiptsInv m flights
    → ReceiptsInv (delete key m) (delete key flights)
delete-ReceiptsInv m flights key v =
    left-ReceiptsInv m (delete key m) flights key v (delete-IsMap key m v.is_map)
      (omega (arith, length-delete-le key m, v.bounded)) (λ other. lookup-delete_other m key other)
      λ x h. cc (lookup-delete_self key m, h)

pub no_receipts-ReceiptsInv : ReceiptsInv [] []
unfolding lookup
no_receipts-ReceiptsInv = record {
  is_map = tt;
  flights_map = tt;
  bounded = omega arith;
  owned = λ key id h. cc;
  awaited = λ key r h waits. cc;
}
