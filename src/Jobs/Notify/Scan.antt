-- ===== src/Jobs/Notify/Scan.antt =====
-- The scan for the oldest completed receipt (internal/jobs/notification.go).
use autostream_discord_bot.Base.{
  ℕ, String, true, false, ◌≡◌, refl, ◌∙◌, sym, subst, Option, none, some, List, [], ◌∷◌, ◌⊎◌, inl,
  inr, arith, if◌then◌else◌, if_case, ltb, leb, ◌==◌, All, length, lookup, IsMap, lookup-head,
  lookup-tail, is_some,
}
use autostream_discord_bot.Jobs.{Receipt}
use autostream_discord_bot.Jobs.Notify.{older, oldest, victim, max_receipts}

abbrev pub IsUnderWay : Receipt → Type 0
IsUnderWay r = r.completed_at ≡ 0

-- The key that the scan gives is a completed receipt of the map, or the one it began with.
abbrev Scanned : List (String × Receipt) → Option (String × ℕ) → Option (String × ℕ) → Type 0
Scanned m best none = Unit
Scanned m best (some (key, at)) =
    (best ≡ some (key, at))
    ⊎ ((r : Receipt) × (lookup key m ≡ some r) × (r.completed_at ≡ at) × ((at == 0) ≡ false))

Scanned-tail :
    (k : String) (r : Receipt) (m : List (String × Receipt)) (best next out : Option (String × ℕ))
    → IsMap ((k, r) ∷ m)
    → (next ≡ best) ⊎ (next ≡ some (k, r.completed_at)) × ((r.completed_at == 0) ≡ false)
    → Scanned m next out
    → Scanned ((k, r) ∷ m) best out
Scanned-tail k r m best next none u moved h = tt
Scanned-tail k r m best next (some (key, at)) u moved (inr (s, e, at_eq, done)) =
    inr (s, lookup-tail k key r s m u e, at_eq, done)
Scanned-tail k r m best next (some (key, at)) u (inl same) (inl e) = inl (sym same ∙ e)
Scanned-tail k r m best next (some (key, at)) u (inr (taken, done)) (inl e) =
    inr (r, lookup-head key k r m (cc (taken, e)), cc (taken, e), cc (taken, e, done))

older-next :
    (best : Option (String × ℕ)) (k : String) (at : ℕ)
    → (older best k at ≡ best) ⊎ (older best k at ≡ some (k, at))
unfolding older
older-next none k at = inr refl
older-next (some (j, b)) k at =
    if_case (λ (o : Option (String × ℕ)). (o ≡ some (j, b)) ⊎ (o ≡ some (k, at))) (ltb at b)
      (λ _. inr refl) (λ _. inl refl)

scan-next :
    (best : Option (String × ℕ)) (k : String) (at : ℕ)
    → ((if at == 0 then best else older best k at) ≡ best)
      ⊎ ((if at == 0 then best else older best k at) ≡ some (k, at)) × ((at == 0) ≡ false)
scan-next best k at = ground (arith, older-next best k at)

oldest-Scanned :
    (m : List (String × Receipt)) (best : Option (String × ℕ))
    → IsMap m
    → Scanned m best (oldest best m)
unfolding oldest
oldest-Scanned [] none u = tt
oldest-Scanned [] (some (k, at)) u = inl refl
oldest-Scanned ((k, r) ∷ m) best u =
    Scanned-tail k r m best (if r.completed_at == 0 then best else older best k r.completed_at) _ u
      (scan-next best k r.completed_at) (oldest-Scanned m _ u.1)

abbrev pub Found : List (String × Receipt) → Option (String × ℕ) → Type 0
Found m none = Unit
Found m (some (key, at)) = (r : Receipt) × (lookup key m ≡ some r) × ((r.completed_at == 0) ≡ false)

Found-Scanned :
    (m : List (String × Receipt)) (o : Option (String × ℕ)) → Scanned m none o → Found m o
Found-Scanned m none h = tt
Found-Scanned m (some (key, at)) (inl e) = cc e
Found-Scanned m (some (key, at)) (inr (r, e, same, done)) = (r, e, cc (same, done))

pub victim-Found : (m : List (String × Receipt)) → IsMap m → Found m (victim m)
unfolding victim
victim-Found m u =
    if_case (Found m) (leb max_receipts (length m))
      (λ _. Found-Scanned m (oldest none m) (oldest-Scanned m none u)) λ _. tt

older-is_some : (p : String × ℕ) (k : String) (at : ℕ) → is_some (older (some p) k at) ≡ true
unfolding older
older-is_some (j, b) k at = ground arith

-- A scan that has found one does not lose it.
oldest-is_some :
    (m : List (String × Receipt)) (best : Option (String × ℕ))
    → is_some best ≡ true
    → is_some (oldest best m) ≡ true
unfolding oldest
oldest-is_some [] best h = h
oldest-is_some ((k, r) ∷ m) none h = cc
oldest-is_some ((k, r) ∷ m) (some p) h =
    oldest-is_some m (if r.completed_at == 0 then some p else older (some p) k r.completed_at)
      (ground (arith, older-is_some p k r.completed_at))

pub oldest-none :
    (m : List (String × Receipt))
    → oldest none m ≡ none
    → All (λ (e : String × Receipt). IsUnderWay e.1) m
unfolding oldest older
oldest-none [] h = tt
oldest-none ((k, r) ∷ m) h =
    ground (arith, oldest-none m, oldest-is_some m (some (k, r.completed_at)) refl)

pub victim-some :
    (m : List (String × Receipt)) (key : String) (at : ℕ)
    → IsMap m
    → victim m ≡ some (key, at)
    → Found m (some (key, at))
victim-some m key at u e = subst (Found m) e (victim-Found m u)
