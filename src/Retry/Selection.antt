-- ===== src/Retry/Selection.antt =====
-- Which report `next` hands out, and how long it waits when none is due.
use autostream_discord_bot.Base.{
  ℕ, ◌-◌, ◌≤◌, String, true, false, ◌≡◌, refl, ap, sym, ◌⊎◌, inl, inr, some, List, [], ◌∷◌, arith,
  is_empty, str_eq, eq_iff, lookup, delete, IsMap, lookup-head, lookup-tail, ◌≢◌, ◌∙◌, ◌==◌,
  Bool-cases, leb, if_case,
}
use autostream_discord_bot.Retry.{
  Report, Queue, Next, ready, wait_for, idle, no_report, is_due, choose, nearer, pick, answer, next,
}

-- Every pending report stands under its own key, and no key is the empty text.
abbrev pub Keyed : List (String × Report) → Type 0
Keyed m = (k : String) (r : Report) → lookup k m ≡ some r → (r.key ≡ k) × (is_empty k ≡ false)

pub Keyed-tail :
    (j : String) (x : Report) (m : List (String × Report))
    → IsMap ((j, x) ∷ m)
    → Keyed ((j, x) ∷ m)
    → Keyed m
unfolding lookup
Keyed-tail j x m u keyed k r e = ground (arith, keyed k r, eq_iff j k)

pub Keyed-head :
    (j : String) (x : Report) (m : List (String × Report))
    → Keyed ((j, x) ∷ m)
    → (x.key ≡ j) × (is_empty j ≡ false)
unfolding lookup
Keyed-head j x m keyed = ground (arith, keyed j x, eq_iff j j)

choose-keeps :
    (now : ℕ) (s x : Report)
    → is_empty s.key ≡ false
    → is_empty x.key ≡ false
    → (is_empty (choose now s x).key ≡ false) × ((choose now s x).queued_at ≤ s.queued_at)
unfolding choose
choose-keeps now s x h k = ground arith

choose-due :
    (now : ℕ) (s x : Report)
    → is_due now x ≡ true
    → is_empty x.key ≡ false
    → (is_empty (choose now s x).key ≡ false) × ((choose now s x).queued_at ≤ x.queued_at)
unfolding choose
choose-due now s x h k = ground arith

choose-cases :
    (now : ℕ) (s x : Report) → (choose now s x ≡ s) ⊎ ((choose now s x ≡ x) × (is_due now x ≡ true))
unfolding choose
choose-cases now s x = ground arith

nearer-le : (now t : ℕ) (x : Report) → t ≢ 0 → (nearer now t x ≢ 0) × (nearer now t x ≤ t)
unfolding nearer
nearer-le now t x h = ground arith

nearer-waits :
    (now t : ℕ) (x : Report)
    → is_due now x ≡ false
    → (nearer now t x ≢ 0) × (nearer now t x ≤ x.next_try_at)
unfolding nearer
nearer-waits now t x h = ground arith

-- What an answer of `next` says of a report `x` that is pending under `k`.
abbrev pub Serves : Queue → ℕ → ℕ → String → Report → Queue × Next → Type 0
Serves q now later k x (q', ready r) =
    (lookup r.key q.pending ≡ some r)
    × (is_due now r ≡ true)
    × (q' ≡ record q { pending = delete r.key q.pending })
    × ((is_due now x ≡ false) ⊎ (r.queued_at ≤ x.queued_at))
Serves q now later k x (q', wait_for d) =
    (is_due now x ≡ false) × (q' ≡ q) × (d ≤ x.next_try_at - later)
Serves q now later k x (q', idle) =
    (is_due now x ≡ false)
    × (q' ≡ q)
    × ((j : String) × (y : Report) × (lookup j q.pending ≡ some y)
        × (is_due now y ≡ false)
        × (is_due later y ≡ true))

-- Once a report is selected, only an older one takes its place.
pick-keeps :
    (now : ℕ) (s : Report) (t : ℕ) (m : List (String × Report))
    → IsMap m
    → Keyed m
    → is_empty s.key ≡ false
    → (is_empty (pick now s t m).0.key ≡ false) × ((pick now s t m).0.queued_at ≤ s.queued_at)
unfolding pick
pick-keeps now s t [] u keyed h = (h, omega arith)
pick-keeps now s t ((j, x) ∷ m) u keyed h =
    let (named, older) =
      choose-keeps now s x h (rw (Keyed-head j x m keyed).0 (Keyed-head j x m keyed).1) in
    let (kept, least) =
      pick-keeps now (choose now s x) (nearer now t x) m u.1 (Keyed-tail j x m u keyed) named in
    (kept, omega arith)

-- A due report is selected, or one that was queued no later.
pick-least :
    (now : ℕ) (s : Report) (t : ℕ) (m : List (String × Report))
    → IsMap m
    → Keyed m
    → (k : String) (r : Report) → lookup k m ≡ some r
    → is_due now r ≡ true
    → (is_empty (pick now s t m).0.key ≡ false) × ((pick now s t m).0.queued_at ≤ r.queued_at)
unfolding pick lookup
pick-least now s t [] u keyed k r e d = cc
pick-least now s t ((j, x) ∷ m) u keyed k r e d = elim (Bool-cases (str_eq j k)) [
  | inl here ↦
      let same : x ≡ r = ground arith in
      let (named, older) =
        choose-due now s x (rw same d) (rw (Keyed-head j x m keyed).0 (Keyed-head j x m keyed).1) in
      let (kept, least) =
        pick-keeps now (choose now s x) (nearer now t x) m u.1 (Keyed-tail j x m u keyed) named in
      (kept, ground arith)
  | inr there ↦
      pick-least now (choose now s x) (nearer now t x) m u.1 (Keyed-tail j x m u keyed) k r
        (ground arith) d
]

selected-head :
    (now : ℕ) (j : String) (x : Report) (m : List (String × Report)) (s : Report)
    → s ≡ x
    → x.key ≡ j
    → lookup s.key ((j, x) ∷ m) ≡ some s
selected-head now j x m s e h = lookup-head s.key j x m (ap (λ r. r.key) e ∙ h) ∙ ap some (sym e)

-- What is selected was selected before, or is pending and due.
pub pick-found :
    (now : ℕ) (s : Report) (t : ℕ) (m : List (String × Report))
    → IsMap m
    → Keyed m
    → ((pick now s t m).0 ≡ s)
      ⊎ ((lookup (pick now s t m).0.key m ≡ some (pick now s t m).0)
          × (is_due now (pick now s t m).0 ≡ true))
unfolding pick
pick-found now s t [] u keyed = inl refl
pick-found now s t ((j, x) ∷ m) u keyed =
    elim (pick-found now (choose now s x) (nearer now t x) m u.1 (Keyed-tail j x m u keyed)) [
      | inr (e, d) ↦ inr (lookup-tail j _ x _ m u e, d)
      | inl same ↦ elim (choose-cases now s x) [
        | inl old ↦ inl (same ∙ old)
        | inr (new, d) ↦ inr (
          selected-head now j x m _ (same ∙ new) (Keyed-head j x m keyed).0,
          ap (is_due now) (same ∙ new) ∙ d,
        )
      ]
    ]

-- No time is put in front of the one that is found, and none that waits is before it.
pick-soonest-le :
    (now : ℕ) (s : Report) (t : ℕ) (m : List (String × Report))
    → t ≢ 0
    → ((pick now s t m).1 ≢ 0) × ((pick now s t m).1 ≤ t)
unfolding pick
pick-soonest-le now s t [] h = (h, omega arith)
pick-soonest-le now s t ((j, x) ∷ m) h =
    let (some_time, sooner) = nearer-le now t x h in
    let (kept, least) = pick-soonest-le now (choose now s x) (nearer now t x) m some_time in
    (kept, omega arith)

pick-soonest-waits :
    (now : ℕ) (s : Report) (t : ℕ) (m : List (String × Report)) (k : String) (r : Report)
    → lookup k m ≡ some r
    → is_due now r ≡ false
    → ((pick now s t m).1 ≢ 0) × ((pick now s t m).1 ≤ r.next_try_at)
unfolding pick lookup
pick-soonest-waits now s t [] k r e d = cc
pick-soonest-waits now s t ((j, x) ∷ m) k r e d = elim (Bool-cases (str_eq j k)) [
  | inl here ↦
      let same : x ≡ r = ground arith in
      let (some_time, sooner) = nearer-waits now t x (rw same d) in
      let (kept, least) = pick-soonest-le now (choose now s x) (nearer now t x) m some_time in
      (kept, ground arith)
  | inr there ↦ pick-soonest-waits now (choose now s x) (nearer now t x) m k r (ground arith) d
]

nearer-cases :
    (now t : ℕ) (x : Report)
    → (nearer now t x ≡ t) ⊎ ((nearer now t x ≡ x.next_try_at) × (is_due now x ≡ false))
unfolding nearer
nearer-cases now t x = ground arith

-- A report that waits until this time.
abbrev Waits : ℕ → List (String × Report) → ℕ → Type 0
Waits now m t =
    (j : String) × (y : Report) × (lookup j m ≡ some y)
    × (is_due now y ≡ false)
    × (y.next_try_at ≡ t)

-- The time that is found was found before, or a pending report waits until then.
pick-soonest-found :
    (now : ℕ) (s : Report) (t : ℕ) (m : List (String × Report))
    → IsMap m
    → ((pick now s t m).1 ≡ t) ⊎ Waits now m (pick now s t m).1
unfolding pick
pick-soonest-found now s t [] u = inl refl
pick-soonest-found now s t ((j, x) ∷ m) u =
    elim (pick-soonest-found now (choose now s x) (nearer now t x) m u.1) [
      | inr (k, y, found, waits, same) ↦ inr (k, y, lookup-tail j k x y m u found, waits, same)
      | inl same ↦ elim (nearer-cases now t x) [
        | inl old ↦ inl (same ∙ old)
        | inr (new, waits) ↦ inr (j, x, lookup-head j j x m refl, waits, sym (same ∙ new))
      ]
    ]

answer-Serves :
    (q : Queue) (now later : ℕ) (k : String) (x : Report) (p : Report × ℕ)
    → (p.0 ≡ no_report) ⊎ ((lookup p.0.key q.pending ≡ some p.0) × (is_due now p.0 ≡ true))
    → (is_due now x ≡ true → (is_empty p.0.key ≡ false) × (p.0.queued_at ≤ x.queued_at))
    → (is_due now x ≡ false → (p.1 ≢ 0) × (p.1 ≤ x.next_try_at))
    → (p.1 ≡ 0) ⊎ Waits now q.pending p.1
    → Serves q now later k x (answer q later p)
unfolding answer
answer-Serves q now later k x (s, t) found least waits soonest =
    elim (Bool-cases (is_empty s.key)) [
      | inr named ↦
          let (pending, due) = served found named in
          rw (named, answer)
            (
              pending,
              due,
              refl,
              elim (Bool-cases (is_due now x)) [ inl d ↦ inr (least d).1 | inr d ↦ inl d ],
            )
      | inl blank ↦ elim (Bool-cases (is_due now x)) [
        | inl d ↦ cc ((least d).0)
        | inr d ↦
            let later_on : (t == 0) ≡ false = ground (arith, waits d) in
            rw (blank, later_on, answer)
              (if_case (Serves q now later k x) (leb t later)
                (λ over. (d, refl, overdue (waits d).0 over soonest))
                (λ _. (d, refl, omega (arith, waits d))))
      ]
    ]
  where
    overdue :
        t ≢ 0
        → leb t later ≡ true
        → (t ≡ 0) ⊎ Waits now q.pending t
        → (j : String) × (y : Report) × (lookup j q.pending ≡ some y)
          × (is_due now y ≡ false)
          × (is_due later y ≡ true)
    overdue some_time over (inl none_found) = absurd (some_time none_found)
    overdue some_time over (inr (j, y, found, waiting, same)) =
        (j, y, found, waiting, ground (arith, same))

    served :
        (s ≡ no_report) ⊎ ((lookup s.key q.pending ≡ some s) × (is_due now s ≡ true))
        → is_empty s.key ≡ false
        → (lookup s.key q.pending ≡ some s) × (is_due now s ≡ true)
    served (inl e) named = cc
    served (inr h) named = h

-- If the pending reports are a map in which each stands under its own key, which is not empty, and
-- one is pending: next hands out a report that is pending and due, takes it and nothing else out
-- of the pending reports, and hands out none that was queued after the given one if that is due;
-- it waits only if the given one is not due, never longer than until it is, and then changes
-- nothing; it is idle, and waits for no time, only if the given one is not due at the first
-- reading of the clock and a pending report became due before the second one.
pub next-Serves :
    (q : Queue) (now later : ℕ) (k : String) (x : Report)
    → IsMap q.pending
    → Keyed q.pending
    → lookup k q.pending ≡ some x
    → Serves q now later k x (next q now later)
unfolding next
next-Serves q now later k x u keyed e =
    answer-Serves q now later k x (pick now no_report 0 q.pending)
      (pick-found now no_report 0 q.pending u keyed)
      (pick-least now no_report 0 q.pending u keyed k x e)
      (pick-soonest-waits now no_report 0 q.pending k x e)
      (pick-soonest-found now no_report 0 q.pending u)
