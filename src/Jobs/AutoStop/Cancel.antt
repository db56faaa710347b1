-- ===== src/Jobs/AutoStop/Cancel.antt =====
-- What cancelling, invalidating and finishing a check of an empty channel do
-- (internal/jobs/auto_stop.go, lines 239 to 308).
use autostream_discord_bot.Base.{
  ℕ, ◌+◌, ◌<◌, String, true, false, not, ◌≡◌, ◌≢◌, ◌⊎◌, inl, inr, refl, ap, ◌∙◌, if_case, next64,
  Option, none, some, List, ◌∷◌, arith, str_eq_refl, is_empty, is_nil, trim, lookup, get_or,
  has_key, lookup-delete_self, lookup-insert_self,
}
use autostream_discord_bot.Types.{VoiceJob}
use autostream_discord_bot.Jobs.{Manager, StopState, InFlight, Observation}
use autostream_discord_bot.Jobs.AutoStop.{
  invalidated, invalidate_auto_stop, abort_request, cancel_auto_stop, auto_stop_still_valid,
  update_auto_stop, schedule_check, observed, is_held, note_return, keep_running,
  record_rejoin_intent,
}

-- No check of the stream is pending, whatever its generation.
abbrev pub IsIdle : StopState → String → Type 0
IsIdle a stream = get_or stream false a.pending ≡ false

-- A pending check is what makes a check valid.
pub IsIdle-invalid :
    (m : Manager) (stream : String) (generation : ℕ)
    → IsIdle m.auto_stop stream
    → auto_stop_still_valid m stream generation ≡ false
unfolding auto_stop_still_valid
IsIdle-invalid m stream generation idle = ground arith

invalidate_auto_stop-eq :
    (a : StopState) (stream : String)
    → trim stream ≡ stream
    → is_empty stream ≡ false
    → invalidate_auto_stop a stream ≡ invalidated a stream
unfolding invalidate_auto_stop
invalidate_auto_stop-eq a stream trimmed named = rw (trimmed, named)

invalidated-IsIdle : (a : StopState) (stream : String) → IsIdle (invalidated a stream) stream
invalidated-IsIdle a stream = ground (arith, lookup-delete_self stream a.pending)

-- For a stream with a trimmed name that is not empty, invalidating ends every check of the stream,
-- forgets its attempts and its cooldown, and leaves the request that may be under way alone.
invalidate_auto_stop-ends :
    (m : Manager) (a : StopState) (stream : String) (generation : ℕ)
    → trim stream ≡ stream
    → is_empty stream ≡ false
    → let b = invalidate_auto_stop a stream in
      (auto_stop_still_valid (record m { auto_stop = b }) stream generation ≡ false)
      × (lookup stream b.attempts ≡ none)
      × (lookup stream b.last_attempt ≡ none)
      × (b.in_flight ≡ a.in_flight)
      × (b.cancelled ≡ a.cancelled)
invalidate_auto_stop-ends m a stream generation trimmed named =
    rw (invalidate_auto_stop-eq a stream trimmed named) (
      IsIdle-invalid (record m { auto_stop = invalidated a stream }) stream generation
          (invalidated-IsIdle a stream),
      lookup-delete_self stream a.attempts,
      lookup-delete_self stream a.last_attempt,
      refl,
      refl,
    )

cancel_auto_stop-eq :
    (a : StopState) (stream : String)
    → trim stream ≡ stream
    → is_empty stream ≡ false
    → cancel_auto_stop a stream ≡ invalidated (abort_request a stream) stream
unfolding cancel_auto_stop invalidate_auto_stop
cancel_auto_stop-eq a stream trimmed named = rw (trimmed, trimmed, named)

-- The cancelled contexts once a request, if there is one, is cancelled.
abbrev pub with_cancelled : Option InFlight → List ℕ → List ℕ
with_cancelled none contexts = contexts
with_cancelled (some r) contexts = r.request ∷ contexts

abort_request-cancels :
    (a : StopState) (stream : String)
    → (has_key stream (abort_request a stream).in_flight ≡ false)
      × ((abort_request a stream).cancelled
          ≡ with_cancelled (lookup stream a.in_flight) a.cancelled)
      × ((abort_request a stream).pending ≡ a.pending)
unfolding abort_request
abort_request-cancels a stream =
    (ground (arith, lookup-delete_self stream a.in_flight), ground arith, ground arith)

-- For a stream with a trimmed name that is not empty, cancelling ends every check of the stream;
-- the request under way, if there is one, has its context cancelled and is forgotten.
cancel_auto_stop-ends :
    (m : Manager) (a : StopState) (stream : String) (generation : ℕ)
    → trim stream ≡ stream
    → is_empty stream ≡ false
    → let b = cancel_auto_stop a stream in
      (auto_stop_still_valid (record m { auto_stop = b }) stream generation ≡ false)
      × (has_key stream b.in_flight ≡ false)
      × (b.cancelled ≡ with_cancelled (lookup stream a.in_flight) a.cancelled)
cancel_auto_stop-ends m a stream generation trimmed named =
    rw (cancel_auto_stop-eq a stream trimmed named) (
      IsIdle-invalid (record m { auto_stop = invalidated (abort_request a stream) stream }) stream
          generation (invalidated-IsIdle (abort_request a stream) stream),
      (abort_request-cancels a stream).0,
      (abort_request-cancels a stream).1,
    )

-- Any manager may have these checks: whatever its job, its participants and its stopper, none of
-- this generation of the stream is valid.
abbrev pub IsOver : StopState → String → ℕ → Type 0
IsOver a stream generation =
    (n : Manager) → auto_stop_still_valid (record n { auto_stop = a }) stream generation ≡ false

IsIdle-IsOver :
    (a : StopState) (stream : String) (generation : ℕ)
    → IsIdle a stream
    → IsOver a stream generation
IsIdle-IsOver a stream generation idle n =
    IsIdle-invalid (record n { auto_stop = a }) stream generation idle

generation-IsOver :
    (a : StopState) (stream : String) (generation : ℕ)
    → get_or stream 0 a.generation ≢ generation
    → IsOver a stream generation
unfolding auto_stop_still_valid
generation-IsOver a stream generation other n = ground arith

invalidated-next :
    (a : StopState) (stream : String)
    → get_or stream 0 (invalidated a stream).generation ≡ next64 (get_or stream 0 a.generation)
invalidated-next a stream =
    ground (arith, lookup-insert_self stream (next64 (get_or stream 0 a.generation)) a.generation)

abort_request-generation :
    (a : StopState) (stream : String) → (abort_request a stream).generation ≡ a.generation
unfolding abort_request
abort_request-generation a stream = ground arith

note_return-auto_stop : (m : Manager) (job : VoiceJob) → (note_return m job).auto_stop ≡ m.auto_stop
unfolding note_return record_rejoin_intent
note_return-auto_stop m job = ground arith

cancelled-next :
    (a : StopState) (stream : String)
    → trim stream ≡ stream
    → is_empty stream ≡ false
    → get_or stream 0 (cancel_auto_stop a stream).generation ≡ next64 (get_or stream 0 a.generation)
cancelled-next a stream trimmed named =
    ap (λ b. get_or stream 0 b.generation) (cancel_auto_stop-eq a stream trimmed named)
    ∙ invalidated-next (abort_request a stream) stream
    ∙ ap (λ g. next64 (get_or stream 0 g)) (abort_request-generation a stream)

cancelled-IsOver :
    (a : StopState) (stream : String) (generation : ℕ)
    → trim stream ≡ stream
    → is_empty stream ≡ false
    → IsOver (cancel_auto_stop a stream) stream generation
cancelled-IsOver a stream generation trimmed named =
    IsIdle-IsOver (cancel_auto_stop a stream) stream generation (
      ap (λ b. get_or stream false b.pending) (cancel_auto_stop-eq a stream trimmed named)
      ∙ invalidated-IsIdle (abort_request a stream) stream)

-- For a job whose stream has a trimmed name that is not empty: when somebody is in the channel, an
-- update of the policy ends every check of the stream, so that none is valid in any manager with
-- the checks that it leaves, even if the channel is empty again; the generation of the stream is
-- the next one, its request under way is gone, and no check begins.
pub update_auto_stop-occupied :
    (m : Manager) (job : VoiceJob) (now : ℕ) (source : String) (revision generation : ℕ)
    → trim job.stream_id ≡ job.stream_id
    → is_empty job.stream_id ≡ false
    → is_nil m.roster.participants ≡ false
    → let (u, o) = update_auto_stop m job now source revision in
      IsOver u.auto_stop job.stream_id generation
      × (get_or job.stream_id 0 u.auto_stop.generation
          ≡ next64 (get_or job.stream_id 0 m.auto_stop.generation))
      × (has_key job.stream_id u.auto_stop.in_flight ≡ false)
      × (o ≡ none)
unfolding update_auto_stop keep_running
update_auto_stop-occupied m job now source revision generation trimmed named somebody =
    let noted = (note_return m job).auto_stop in
    rw somebody (
      cancelled-IsOver noted job.stream_id generation trimmed named,
      cancelled-next noted job.stream_id trimmed named
          ∙ ap (λ (a : StopState). next64 (get_or job.stream_id 0 a.generation))
              (note_return-auto_stop m job),
      (cancel_auto_stop-ends (note_return m job) noted job.stream_id generation trimmed named).1,
      refl,
    )

schedule_check-valid :
    (m : Manager) (source : String) (revision : ℕ)
    → is_nil m.roster.participants ≡ true
    → m.auto_stop.stopper ≡ true
    → auto_stop_still_valid
        (schedule_check m m.current source revision).0
        m.current.stream_id
        (observed m m.current source revision).auto_stop_generation
      ≡ true
unfolding schedule_check auto_stop_still_valid
schedule_check-valid m source revision nobody stopper = ground (
  arith,
  lookup-insert_self m.current.stream_id true m.auto_stop.pending,
  str_eq_refl m.current.stream_id,
)

scheduled-next :
    (m : Manager) (job : VoiceJob) (source : String) (revision : ℕ)
    → (observed m job source revision).auto_stop_generation
      ≡ next64 (get_or job.stream_id 0 m.auto_stop.generation)
scheduled-next m job source revision = ground (
  arith,
  lookup-insert_self job.stream_id (next64 (get_or job.stream_id 0 m.auto_stop.generation))
      m.auto_stop.generation,
)

scheduled-IsOver :
    (m : Manager) (job : VoiceJob) (source : String) (revision : ℕ)
    → IsOver
        (schedule_check m job source revision).0.auto_stop
        job.stream_id
        (get_or job.stream_id 0 m.auto_stop.generation)
unfolding schedule_check
scheduled-IsOver m job source revision =
    generation-IsOver _ job.stream_id (get_or job.stream_id 0 m.auto_stop.generation)
      λ same. absurd (omega (arith, same, scheduled-next m job source revision))

-- What an update of the policy says of the current job: no check begins, for one of four reasons,
-- or one begins under the next generation, the first look at the channel still to come.
abbrev pub Begins : Manager → ℕ → Manager × Option Observation → Type 0
Begins m now (u, none) =
    (is_nil m.roster.participants ≡ false)
    ⊎ (m.auto_stop.stopper ≡ false)
    ⊎ (get_or m.current.stream_id false m.auto_stop.pending ≡ true)
    ⊎ ((get_or m.current.stream_id 0 m.auto_stop.last_attempt ≢ 0)
        × (now < get_or m.current.stream_id 0 m.auto_stop.last_attempt + m.auto_stop.cooldown))
Begins m now (u, some o) =
    (auto_stop_still_valid u m.current.stream_id o.auto_stop_generation ≡ true)
    × (o.auto_stop_generation ≡ next64 (get_or m.current.stream_id 0 m.auto_stop.generation))
    × (o.empty_revalidation_passed ≡ false)
    × (lookup m.current.stream_id u.auto_stop.attempts ≡ some 0)
    × IsOver u.auto_stop m.current.stream_id (get_or m.current.stream_id 0 m.auto_stop.generation)

schedule_check-Begins :
    (m : Manager) (now : ℕ) (source : String) (revision : ℕ)
    → is_nil m.roster.participants ≡ true
    → m.auto_stop.stopper ≡ true
    → Begins m now (schedule_check m m.current source revision)
unfolding schedule_check
schedule_check-Begins m now source revision nobody stopper = (
  schedule_check-valid m source revision nobody stopper,
  scheduled-next m m.current source revision,
  refl,
  lookup-insert_self m.current.stream_id 0 m.auto_stop.attempts,
  scheduled-IsOver m m.current source revision,
)

-- An update of the policy for the current job begins a check, unless a participant is known, no
-- stopper is set, a check is pending, or the last attempt is not older than the cooldown. The
-- check is valid under its generation, which is the one after the generation before, has no
-- attempts and its first look at the channel still to come; a check of the generation before is
-- valid in no manager with the checks that it leaves.
pub update_auto_stop-Begins :
    (m : Manager) (now : ℕ) (source : String) (revision : ℕ)
    → Begins m now (update_auto_stop m m.current now source revision)
unfolding update_auto_stop
update_auto_stop-Begins m now source revision =
    if_case (Begins m now) (not (is_nil m.roster.participants)) (λ h. inl (ground arith))
      λ nobody.
        if_case (Begins m now) (not m.auto_stop.stopper) (λ h. inr (inl (ground arith)))
          λ stopper.
            if_case (Begins m now) (is_held m.auto_stop m.current.stream_id now) (λ h. ground arith)
              λ _. schedule_check-Begins m now source revision (ground arith) (ground arith)
