-- ===== src/Jobs/AutoStop/Check/Confirmed.antt =====
-- When a stop request goes out (`autoStopWhenEmpty` in internal/jobs/auto_stop.go).
use autostream_discord_bot.Base.{
  ℕ, String, true, false, not, ◌≡◌, refl, ap, subst, ◌⊎◌, inl, inr, sym, ◌∙◌, Option, List, [], ◌∷◌,
  arith, is_some, is_nil, if_case, has_key, Option-cases, lookup-insert_self,
}
use autostream_discord_bot.Types.{ParticipantSnapshot}
use autostream_discord_bot.Jobs.{Manager, Observation}
use autostream_discord_bot.Jobs.AutoStop.{auto_stop_still_valid, auto_stop_still_valid_for_job}
use autostream_discord_bot.Jobs.AutoStop.Check.{
  View, no_source, unavailable, seen, Basis, Verdict, ends, looks_again, requests, Answer, ended,
  again, sent, begin_check, begin_request, requested, still_valid, revalidate, found_empty,
  found_occupied, send, conclude, auto_stop_when_empty,
}

-- The channel was read and is empty, and an earlier look of the same check had found it empty; or
-- the client cannot be asked.
abbrev pub IsConfirmed : View → Observation → Type 0
IsConfirmed no_source o = Unit
IsConfirmed unavailable o = ⊥
IsConfirmed (seen s) o = (s.participants ≡ []) × (o.empty_revalidation_passed ≡ true)

-- The channel was read, and nobody is in it.
abbrev pub FoundEmpty : View → Type 0
FoundEmpty no_source = ⊥
FoundEmpty unavailable = ⊥
FoundEmpty (seen s) = s.participants ≡ []

-- What a verdict of the check says: a request is confirmed and of the same generation, and a
-- channel is looked at again only if it had not been found empty before.
abbrev Justified : View → Observation → Verdict → Type 0
Justified view o (ends tasks) = Unit
Justified view o (looks_again o' delay) =
    (o.empty_revalidation_passed ≡ false)
    × FoundEmpty view
    × (o'.auto_stop_generation ≡ o.auto_stop_generation)
Justified view o (requests o') =
    IsConfirmed view o
    × (o'.auto_stop_generation ≡ o.auto_stop_generation)
    × (o'.empty_revalidation_passed ≡ o.empty_revalidation_passed)

found_empty-Justified :
    (m : Manager) (stream : String) (o : Observation) (b : Basis) (s : ParticipantSnapshot)
    → s.participants ≡ []
    → Justified (seen s) o (found_empty m stream o b s)
unfolding found_empty
found_empty-Justified m stream o b s nobody =
    if_case (Justified (seen s) o) (not (still_valid m stream o b)) (λ _. tt)
      λ _.
        if_case (Justified (seen s) o) (not o.empty_revalidation_passed)
          (λ first. (ground arith, nobody, refl)) (λ second. ((nobody, ground arith), refl, refl))

revalidate-Justified :
    (m : Manager) (stream : String) (o : Observation) (b : Basis) (view : View) (now : ℕ)
    → Justified view o (revalidate m stream o b view now).1
unfolding revalidate
revalidate-Justified m stream o b no_source now = (tt, refl, refl)
revalidate-Justified m stream o b unavailable now = tt
revalidate-Justified m stream o b (seen s) now =
    if_case (λ (p : Manager × Verdict). Justified (seen s) o p.1) (not (is_nil s.participants))
      (λ _. unfold found_occupied in tt)
      (λ nobody. found_empty-Justified m stream o b s (ground arith))

-- What the end of a check says of the state it leaves and the observation it began with.
abbrev pub Sound : String → View → Observation → Manager × Answer → Type 0
Sound stream view o (u, ended tasks) = Unit
Sound stream view o (u, again o' delay) =
    (o.empty_revalidation_passed ≡ false)
    × FoundEmpty view
    × (o'.auto_stop_generation ≡ o.auto_stop_generation)
Sound stream view o (u, sent o') =
    IsConfirmed view o
    × (auto_stop_still_valid u stream o.auto_stop_generation ≡ true)
    × (has_key stream u.auto_stop.in_flight ≡ true)
    × (o'.empty_revalidation_passed ≡ o.empty_revalidation_passed)

-- Noting the request leaves the check valid.
requested-valid :
    (m : Manager) (stream : String) (o : Observation) (b : Basis) (now : ℕ)
    → still_valid m stream o b ≡ true
    → auto_stop_still_valid (requested m stream o now) stream o.auto_stop_generation ≡ true
unfolding auto_stop_still_valid_for_job auto_stop_still_valid
requested-valid m stream o b now valid = ground arith

send-Sound :
    (m : Manager) (stream : String) (view : View) (o o' : Observation) (b : Basis) (now : ℕ)
    → IsConfirmed view o
    → o'.auto_stop_generation ≡ o.auto_stop_generation
    → o'.empty_revalidation_passed ≡ o.empty_revalidation_passed
    → Sound stream view o (send m (begin_request m stream o' b now) o')
unfolding begin_request
send-Sound m stream view o o' b now confirmed same passed =
    if_case (λ (r : Option Manager). Sound stream view o (send m r o'))
      (not (still_valid m stream o' b)) (λ _. tt)
      λ valid. (
        confirmed,
        subst (λ g. auto_stop_still_valid (requested m stream o' now) stream g ≡ true) same
            (requested-valid m stream o' b now (ground arith)),
        ap is_some (lookup-insert_self stream _ m.auto_stop.in_flight),
        passed,
      )

conclude-Sound :
    (p : Manager × Verdict) (stream : String) (view : View) (o : Observation) (b : Basis)
    (others : Manager → Manager) (now : ℕ)
    → Justified view o p.1
    → Sound stream view o (conclude p stream b others now)
unfolding conclude
conclude-Sound (m, ends tasks) stream view o b others now h = tt
conclude-Sound (m, looks_again o' delay) stream view o b others now h = h
conclude-Sound (m, requests o') stream view o b others now h =
    send-Sound (others m) stream view o o' b now h.0 h.1 h.2

-- One look at the channel and what follows it.
auto_stop_when_empty-Sound :
    (m : Manager) (stream : String) (o : Observation) (others : Manager → Manager) (view : View)
    (now : ℕ) (meanwhile : Manager → Manager) (later : ℕ)
    → Sound stream view o (auto_stop_when_empty m stream o others view now meanwhile later)
unfolding auto_stop_when_empty
auto_stop_when_empty-Sound m stream o others view now meanwhile later =
    elim (Option-cases (begin_check m stream o)) [
      | inl over ↦ rw (over, auto_stop_when_empty) tt
      | inr (b, valid) ↦
          rw (valid, auto_stop_when_empty)
            (conclude-Sound (revalidate (others m) stream o b view now) stream view o b meanwhile
              later (revalidate-Justified (others m) stream o b view now))
    ]

-- What a check has seen: the observation that it began with or that an earlier round left, and the
-- looks at the channel so far, the last one first. A request that failed is tried again with the
-- observation that it was sent with.
pub data Reached (stream : String) : Observation → List View → Type 0 where
  begun : (o : Observation) → o.empty_revalidation_passed ≡ false → Reached stream o []
  looked :
      (o o' : Observation) (views : List View) (m : Manager) (others : Manager → Manager)
      (view : View) (now : ℕ) (meanwhile : Manager → Manager) (later delay : ℕ)
      → Reached stream o views
      → (auto_stop_when_empty m stream o others view now meanwhile later).1 ≡ again o' delay
      → Reached stream o' (view ∷ views)
  failed :
      (o o' : Observation) (views : List View) (m : Manager) (others : Manager → Manager)
      (view : View) (now : ℕ) (meanwhile : Manager → Manager) (later : ℕ)
      → Reached stream o views
      → (auto_stop_when_empty m stream o others view now meanwhile later).1 ≡ sent o'
      → Reached stream o' (view ∷ views)

-- Some look at the channel found it empty.
abbrev pub SomeEmpty : List View → Type 0
SomeEmpty [] = ⊥
SomeEmpty (view ∷ views) = FoundEmpty view ⊎ SomeEmpty views

-- What the end of a check says, for its answer given by an equation.
Sound-again :
    (stream : String) (view : View) (o o' : Observation) (delay : ℕ) (p : Manager × Answer)
    → p.1 ≡ again o' delay
    → Sound stream view o p
    → FoundEmpty view
Sound-again stream view o o' delay (u, ended tasks) e h = cc
Sound-again stream view o o' delay (u, again x d) e h = h.1
Sound-again stream view o o' delay (u, sent x) e h = cc

Sound-sent :
    (stream : String) (view : View) (o o' : Observation) (p : Manager × Answer)
    → p.1 ≡ sent o'
    → Sound stream view o p
    → IsConfirmed view o
      × (auto_stop_still_valid p.0 stream o.auto_stop_generation ≡ true)
      × (has_key stream p.0.auto_stop.in_flight ≡ true)
      × (o'.empty_revalidation_passed ≡ o.empty_revalidation_passed)
Sound-sent stream view o o' (u, ended tasks) e h = cc
Sound-sent stream view o o' (u, again x d) e h = cc
Sound-sent stream view o o' (u, sent x) e (confirmed, valid, flight, same) =
    (confirmed, valid, flight, cc (e, same))

-- A check that has confirmed once has found the channel empty once.
Reached-SomeEmpty :
    (stream : String) (o : Observation) (views : List View)
    → Reached stream o views
    → o.empty_revalidation_passed ≡ true
    → SomeEmpty views
Reached-SomeEmpty stream o views (begun _ fresh) passed = cc
Reached-SomeEmpty stream o' views (looked o _ before m others view now meanwhile later delay h e)
      passed =
    inl (
      Sound-again stream view o o' delay _ e
        (auto_stop_when_empty-Sound m stream o others view now meanwhile later))
Reached-SomeEmpty stream o' views (failed o _ before m others view now meanwhile later h e) passed =
    inr (Reached-SomeEmpty stream o before h (sym same ∙ passed))
  where
    same : o'.empty_revalidation_passed ≡ o.empty_revalidation_passed
    same =
        (Sound-sent stream view o o' _ e
          (auto_stop_when_empty-Sound m stream o others view now meanwhile later)).3

IsConfirmed-twice :
    (stream : String) (o : Observation) (views : List View) (view : View)
    → Reached stream o views
    → IsConfirmed view o
    → (view ≡ no_source) ⊎ (FoundEmpty view × SomeEmpty views)
IsConfirmed-twice stream o views no_source h confirmed = inl refl
IsConfirmed-twice stream o views unavailable h confirmed = absurd confirmed
IsConfirmed-twice stream o views (seen s) h (nobody, passed) =
    inr (nobody, Reached-SomeEmpty stream o views h passed)

-- In a check that was begun with a new observation, with any number of looks at the channel and of
-- failed requests before, a stop request goes out only if the client cannot be asked, or the look
-- just made found the channel empty and an earlier look of the check found it empty too; the check
-- is then still valid under its generation, with no participant known, and its request is on
-- record.
pub auto_stop_when_empty-confirmed :
    (stream : String) (o o' : Observation) (views : List View) (m : Manager)
    (others : Manager → Manager) (view : View) (now : ℕ) (meanwhile : Manager → Manager) (later : ℕ)
    → Reached stream o views
    → (auto_stop_when_empty m stream o others view now meanwhile later).1 ≡ sent o'
    → let u = (auto_stop_when_empty m stream o others view now meanwhile later).0 in
      ((view ≡ no_source) ⊎ (FoundEmpty view × SomeEmpty views))
      × (auto_stop_still_valid u stream o.auto_stop_generation ≡ true)
      × (has_key stream u.auto_stop.in_flight ≡ true)
auto_stop_when_empty-confirmed stream o o' views m others view now meanwhile later h e =
    let (confirmed, valid, flight, same) =
      Sound-sent stream view o o' _ e
        (auto_stop_when_empty-Sound m stream o others view now meanwhile later) in
    (IsConfirmed-twice stream o views view h confirmed, valid, flight)
