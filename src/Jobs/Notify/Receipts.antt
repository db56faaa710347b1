-- ===== src/Jobs/Notify/Receipts.antt =====
-- Pruning the receipts (`pruneNotificationReceiptsLocked` in internal/jobs/notification.go): the
-- loop ends, it makes room when it can, and a message under way keeps its receipt.
use autostream_discord_bot.Base.{
  ℕ, zero, suc, ◌≤◌, ◌<◌, String, false, not, ◌≡◌, refl, ◌∙◌, sym, ap, none, some, List, ◌⊎◌, inl,
  inr, arith, All, length, eq_iff, lookup, delete, IsMap, delete-IsMap, keep-IsMap, lookup-delete,
  lookup-keep, lookup-kept, lookup-keep_was, length-delete-lt, length-delete-le, length-keep-le,
  has_key-keep_absent, Option-cases,
}
use autostream_discord_bot.Jobs.{Receipt}
use autostream_discord_bot.Jobs.Notify.{
  is_expired, victim, drop_oldest, prune, unexpired, max_receipts,
}
use autostream_discord_bot.Jobs.Notify.Scan.{IsUnderWay, oldest-none, victim-some}

-- What the loop leaves: room for one more, or nothing but messages under way.
abbrev pub IsSettled : List (String × Receipt) → Type 0
IsSettled m = (length m < max_receipts) ⊎ All (λ (e : String × Receipt). IsUnderWay e.1) m

victim-none-IsSettled : (m : List (String × Receipt)) → victim m ≡ none → IsSettled m
unfolding victim
victim-none-IsSettled m h = ground (arith, oldest-none m)

victim_nil : (m : List (String × Receipt)) → length m ≤ 0 → victim m ≡ none
unfolding victim
victim_nil m h = ground arith

drop_oldest-none :
    (fuel : ℕ) (m : List (String × Receipt)) → victim m ≡ none → drop_oldest (suc fuel) m ≡ m
unfolding drop_oldest
drop_oldest-none fuel m e = rw (e, drop_oldest) refl

drop_oldest-some :
    (fuel : ℕ) (m : List (String × Receipt)) (key : String) (at : ℕ)
    → victim m ≡ some (key, at)
    → drop_oldest (suc fuel) m ≡ drop_oldest fuel (delete key m)
unfolding drop_oldest
drop_oldest-some fuel m key at e = rw (e, drop_oldest) refl

drop_oldest-IsSettled :
    (fuel : ℕ) (m : List (String × Receipt))
    → length m ≤ fuel
    → IsMap m
    → IsSettled (drop_oldest fuel m)
unfolding drop_oldest
drop_oldest-IsSettled zero m h u = victim-none-IsSettled m (victim_nil m h)
drop_oldest-IsSettled (suc fuel) m h u = elim (Option-cases (victim m)) [
  | inl e ↦ rw (drop_oldest-none fuel m e) (victim-none-IsSettled m e)
  | inr ((key, at), e) ↦
      let (r, found, done) = victim-some m key at u e in
      rw (drop_oldest-some fuel m key at e) (
        drop_oldest-IsSettled fuel (delete key m) (omega (arith, length-delete-lt key m r found))
          (delete-IsMap key m u))
]

drop_oldest-IsMap : (fuel : ℕ) (m : List (String × Receipt)) → IsMap m → IsMap (drop_oldest fuel m)
unfolding drop_oldest
drop_oldest-IsMap zero m u = u
drop_oldest-IsMap (suc fuel) m u = elim (Option-cases (victim m)) [
  | inl e ↦ rw (drop_oldest-none fuel m e) u
  | inr ((key, at), e) ↦
      rw (drop_oldest-some fuel m key at e)
        (drop_oldest-IsMap fuel (delete key m) (delete-IsMap key m u))
]

-- A message under way is not the victim.
victim-other :
    (m : List (String × Receipt)) (key k : String) (at : ℕ) (r : Receipt)
    → IsMap m
    → victim m ≡ some (key, at)
    → lookup k m ≡ some r
    → IsUnderWay r
    → lookup k (delete key m) ≡ some r
victim-other m key k at r u e found waits =
    let (s, taken, done) = victim-some m key at u e in
    ground (arith, lookup-delete key k m, eq_iff key k)

drop_oldest-keeps :
    (fuel : ℕ) (m : List (String × Receipt)) (k : String) (r : Receipt)
    → IsMap m
    → lookup k m ≡ some r
    → IsUnderWay r
    → lookup k (drop_oldest fuel m) ≡ some r
unfolding drop_oldest
drop_oldest-keeps zero m k r u found waits = found
drop_oldest-keeps (suc fuel) m k r u found waits = elim (Option-cases (victim m)) [
  | inl e ↦ rw (drop_oldest-none fuel m e) found
  | inr ((key, at), e) ↦ rw (drop_oldest-some fuel m key at e) (
      drop_oldest-keeps fuel (delete key m) k r (delete-IsMap key m u)
        (victim-other m key k at r u e found waits) waits)
]

lookup-delete_was :
    (key k : String) (m : List (String × Receipt)) (r : Receipt)
    → lookup k (delete key m) ≡ some r
    → lookup k m ≡ some r
lookup-delete_was key k m r h = ground (arith, lookup-delete key k m)

-- What is left was there.
drop_oldest-was :
    (fuel : ℕ) (m : List (String × Receipt)) (k : String) (r : Receipt)
    → lookup k (drop_oldest fuel m) ≡ some r
    → lookup k m ≡ some r
unfolding drop_oldest
drop_oldest-was zero m k r h = h
drop_oldest-was (suc fuel) m k r h = elim (Option-cases (victim m)) [
  | inl e ↦ ap (lookup k) (sym (drop_oldest-none fuel m e)) ∙ h
  | inr ((key, at), e) ↦ lookup-delete_was key k m r (
      drop_oldest-was fuel (delete key m) k r
        (ap (lookup k) (sym (drop_oldest-some fuel m key at e)) ∙ h))
]

-- Below the limit the loop does nothing.
drop_oldest-id :
    (fuel : ℕ) (m : List (String × Receipt)) → length m < max_receipts → drop_oldest fuel m ≡ m
unfolding drop_oldest victim
drop_oldest-id zero m h = refl
drop_oldest-id (suc fuel) m h = ground arith

length-drop_oldest-le :
    (fuel : ℕ) (m : List (String × Receipt)) → length (drop_oldest fuel m) ≤ length m
unfolding drop_oldest
length-drop_oldest-le zero m = omega arith
length-drop_oldest-le (suc fuel) m = elim (Option-cases (victim m)) [
  | inl e ↦ rw (drop_oldest-none fuel m e) (omega arith)
  | inr ((key, at), e) ↦
      rw (drop_oldest-some fuel m key at e)
        (omega (arith, length-drop_oldest-le fuel (delete key m), length-delete-le key m))
]

unexpired-kept :
    (now : ℕ) (m : List (String × Receipt)) (k : String) (r : Receipt)
    → lookup k m ≡ some r
    → is_expired now r ≡ false
    → lookup k (unexpired now m) ≡ some r
unexpired-kept now m k r found fresh =
    lookup-kept (λ e. not (is_expired now e.1)) k r m found (ground arith)

pub length-prune-le : (now : ℕ) (m : List (String × Receipt)) → length (prune now m) ≤ length m
unfolding prune
length-prune-le now m = omega (
  arith,
  length-drop_oldest-le (length (unexpired now m)) (unexpired now m),
  length-keep-le (λ (e : String × Receipt). not (is_expired now e.1)) m,
)

-- Pruning receipts that are a map keeps a map, makes it no longer, and runs its loop to the end:
-- it leaves fewer than 2048, or nothing but receipts of messages under way.
pub prune-IsSettled :
    (now : ℕ) (m : List (String × Receipt))
    → IsMap m
    → IsMap (prune now m) × (length (prune now m) ≤ length m) × IsSettled (prune now m)
unfolding prune
prune-IsSettled now m u =
    let v = keep-IsMap (λ e. not (is_expired now e.1)) m u in
    (
      drop_oldest-IsMap _ (unexpired now m) v,
      length-prune-le now m,
      drop_oldest-IsSettled (length (unexpired now m)) (unexpired now m) (omega arith) v,
    )

-- A message under way keeps its receipt.
pub prune-under_way :
    (now : ℕ) (m : List (String × Receipt)) (k : String) (r : Receipt)
    → IsMap m
    → lookup k m ≡ some r
    → IsUnderWay r
    → lookup k (prune now m) ≡ some r
unfolding prune
prune-under_way now m k r u found waits =
    drop_oldest-keeps _ (unexpired now m) k r (keep-IsMap (λ e. not (is_expired now e.1)) m u)
      (unexpired-kept now m k r found (ground arith)) waits

-- What pruning leaves was there and is not expired.
pub prune-was :
    (now : ℕ) (m : List (String × Receipt)) (k : String) (r : Receipt)
    → IsMap m
    → lookup k (prune now m) ≡ some r
    → (lookup k m ≡ some r) × (is_expired now r ≡ false)
unfolding prune
prune-was now m k r u h =
    let p = λ (e : String × Receipt). not (is_expired now e.1) in
    let left = drop_oldest-was (length (unexpired now m)) (unexpired now m) k r h in
    (lookup-keep_was p k r m u left, ground (arith, lookup-keep p k r m left))

-- With fewer than 2048 receipts, one that is not expired stays.
pub prune-kept :
    (now : ℕ) (m : List (String × Receipt)) (k : String) (r : Receipt)
    → length m < max_receipts
    → lookup k m ≡ some r
    → is_expired now r ≡ false
    → lookup k (prune now m) ≡ some r
unfolding prune
prune-kept now m k r few found fresh =
    rw
      (drop_oldest-id (length (unexpired now m)) (unexpired now m)
        (omega (arith, few, length-keep-le (λ (e : String × Receipt). not (is_expired now e.1)) m)))
      (unexpired-kept now m k r found fresh)

pub prune-absent :
    (now : ℕ) (m : List (String × Receipt)) (k : String)
    → lookup k m ≡ none
    → lookup k (prune now m) ≡ none
unfolding prune
prune-absent now m k absent = elim (Option-cases (lookup k (prune now m))) [
  | inl e ↦ e
  | inr (r, e) ↦ ground (
    arith,
    drop_oldest-was (length (unexpired now m)) (unexpired now m) k r e,
    has_key-keep_absent (λ e. not (is_expired now e.1)) k m,
    absent,
  )
]
