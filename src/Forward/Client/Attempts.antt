-- ===== src/Forward/Client/Attempts.antt =====
-- The retries of a delivery (`ForwardOpus` in internal/audioforward/client.go).
use autostream_discord_bot.Base.{
  ℕ, zero, suc, ◌<◌, String, true, false, ◌≡◌, ◌⊎◌, inl, inr, refl, Option, none, some, arith,
  if◌then◌else◌, if_case, ◌==◌, not, ◌&&◌, is_some, [], ◌∷◌, Bool, is_nil, is_empty, trim,
}
use autostream_discord_bot.Control.{Url}
use autostream_discord_bot.Forward.{Batch}
use autostream_discord_bot.Forward.Client.{
  Config, Exchange, Verdict, delivered, may_retry, gives_up, ForwardError, judge, after_attempt,
  attempt_loop, attempts_of, forward_opus, audio_endpoint, wire_packets,
}

-- The response of this attempt was a failure that may be tried again, and the wait went through.
abbrev pub WentOn : Exchange → ℕ → Type 0
WentOn x i = (x.sleeps i ≡ true) × ((e : ForwardError) × (judge (x.answer i) ≡ may_retry e))

-- The attempts from `first` to `last`, all but the last followed by another.
abbrev pub Attempted : Exchange → ℕ → ℕ → ℕ → Type 0
Attempted x zero first last = first ≡ last
Attempted x (suc more) first last = WentOn x first × Attempted x more (suc first) last

-- How the loop ends at its last attempt: delivered exactly if that response is a success.
abbrev pub Ended : Exchange → ℕ × Option ForwardError → Type 0
Ended x (last, none) = judge (x.answer last) ≡ delivered
Ended x (last, some e) =
    (judge (x.answer last) ≡ may_retry e)
    ⊎ (judge (x.answer last) ≡ gives_up e)
    ⊎ ((x.sleeps last ≡ false) × (f : ForwardError) × (judge (x.answer last) ≡ may_retry f))

abbrev pub Run : Exchange → ℕ → ℕ → ℕ × Option ForwardError → Type 0
Run x left first r = (more : ℕ) × (more < left) × Attempted x more first r.0 × Ended x r

after_attempt-Run :
    (x : Exchange) (left first : ℕ) (rest : ℕ × Option ForwardError) (v : Verdict)
    → judge (x.answer first) ≡ v
    → ((left == 0) ≡ false → Run x left (suc first) rest)
    → Run x (suc left) first (after_attempt x first left rest v)
unfolding after_attempt
after_attempt-Run x left first rest delivered e later = (0, omega arith, refl, e)
after_attempt-Run x left first rest (gives_up f) e later = (0, omega arith, refl, inr (inl e))
after_attempt-Run x left first rest (may_retry f) e later =
    if_case (Run x (suc left) first) (left == 0) (λ last. (0, omega arith, refl, inl e))
      λ more.
        if_case (Run x (suc left) first) (x.sleeps first)
          (λ slept.
            let (count, below, attempts, ended) = later more in
            (suc count, omega (arith, below), ((slept, (f, e)), attempts), ended))
          λ cut. (0, omega arith, refl, inr (inr (cut, f, e)))

attempt_loop-Run :
    (x : Exchange) (left first : ℕ)
    → (left == 0) ≡ false
    → Run x left first (attempt_loop x left first)
unfolding attempt_loop
attempt_loop-Run x zero first h = absurd (ground arith)
attempt_loop-Run x (suc left) first h =
    after_attempt-Run x left first (attempt_loop x left (suc first)) (judge (x.answer first)) refl
      (attempt_loop-Run x left (suc first))

attempts_of-ne : (c : Config) → (attempts_of c == 0) ≡ false
attempts_of-ne c = ground arith

-- What a delivery needs: a URL that the encoder may have, a stream, a token, and Opus data.
abbrev pub can_send : String → String → String → Option Url → Batch → ℕ → Bool
can_send url stream token parsed packets now =
    not (is_empty (trim url))
    && not (is_empty (trim stream))
    && not (is_empty (trim token))
    && not (is_some (audio_endpoint parsed))
    && not (is_nil (wire_packets now packets))

-- A delivery without a request: an error, or there is nothing to send.
abbrev pub Held : Batch → ℕ × Option ForwardError → Type 0
Held sending (count, none) = (count ≡ 0) × (is_nil sending ≡ true)
Held sending (count, some e) = count ≡ 0

wire_packets-nil :
    (now : ℕ) (packets : Batch) → is_nil packets ≡ true → is_nil (wire_packets now packets) ≡ true
unfolding wire_packets
wire_packets-nil now [] h = refl
wire_packets-nil now (p ∷ rest) h = absurd (ground arith)

-- A delivery with a URL that is allowed, a stream, a token and Opus data makes from one to as many
-- requests as configured: each but the last failed in a way that may be tried again and was waited
-- after; it is a success only if the last one was, and an error only if the last one failed or the
-- wait after it was cut short. Any other delivery makes no request, and is a success only if there
-- is no Opus data.
pub forward_opus-Run :
    (c : Config) (url stream token : String) (parsed : Option Url) (packets : Batch) (now : ℕ)
    (x : Exchange)
    → let r = forward_opus c url stream token parsed packets now x in
      (can_send url stream token parsed packets now ≡ false) × Held (wire_packets now packets) r
      ⊎ (can_send url stream token parsed packets now ≡ true) × Run x (attempts_of c) 1 r
unfolding forward_opus
forward_opus-Run c url stream token parsed packets now x =
    if_case Goes (is_empty (trim url)) (λ h. inl (ground arith, refl))
      λ u.
        if_case Goes (is_empty (trim stream)) (λ h. inl (ground arith, refl))
          λ s.
            if_case Goes (is_nil packets)
              (λ h.
                let none_left = wire_packets-nil now packets h in
                inl (ground arith, (refl, none_left)))
              λ _.
                if_case Goes (is_empty (trim token)) (λ h. inl (ground arith, refl))
                  λ t. checked u s t (audio_endpoint parsed) refl
  where
    Goes : ℕ × Option ForwardError → Type 0
    Goes r =
        (can_send url stream token parsed packets now ≡ false) × Held (wire_packets now packets) r
        ⊎ (can_send url stream token parsed packets now ≡ true) × Run x (attempts_of c) 1 r

    checked :
        is_empty (trim url) ≡ false
        → is_empty (trim stream) ≡ false
        → is_empty (trim token) ≡ false
        → (o : Option ForwardError) → audio_endpoint parsed ≡ o
        → Goes (elim o [
          | some e ↦ (0, some e)
          | none ↦
              if is_nil (wire_packets now packets)
              then (0, none)
              else attempt_loop x (attempts_of c) 1
        ])
    checked u s t (some e) same = inl (rw (u, s, t, same) refl, refl)
    checked u s t none same =
        if_case Goes (is_nil (wire_packets now packets))
          (λ h. inl (rw (u, s, t, same, h) refl, (refl, h)))
          λ h.
            inr
              (rw (u, s, t, same, h) refl, attempt_loop-Run x (attempts_of c) 1 (attempts_of-ne c))
