-- ===== src/Jobs/AutoStart/Reservation.antt =====
-- When a start is reserved and when it is requested (internal/jobs/auto_start.go).
use autostream_discord_bot.Base.{
  get_or, ℕ, String, Bool, true, false, not, ◌&&◌, ◌||◌, ◌≡◌, refl, ap, ◌∙◌, ◌⊎◌, inl, inr, none,
  some, arith, is_some, if◌then◌else◌, if_case, is_empty, lookup, insert, has_key,
  lookup-insert_self, lookup-delete_self, Option-cases, Bool-cases,
}
use autostream_discord_bot.Types.{VoiceJoinEvent}
use autostream_discord_bot.Jobs.{no_defaults, Manager, StartState, AutoStartRetry}
use autostream_discord_bot.Jobs.AutoStart.{
  note_auto_start_capacity_result, finish_auto_start_retry, after_refresh, refreshing, refresh_due,
  start_held, Joined, Presence, unknown, known, authority_matches, waiting_epoch, new_retry,
  reserved, rearm, reserve_start, reserve, join_waiting, user_joined, voice_user_joined,
  trimmed_event, retry_valid, cancel_auto_start_retry, give_up, after_view, view_presence,
  auto_start_retry_still_valid, matching_auto_start_stream, in_flight_stream_for_voice,
}

-- What the start that a join reserves, if it does, says of the state it leaves.
abbrev pub Reserves : Manager → VoiceJoinEvent → Joined → Type 0
Reserves w event (u, none) = Unit
Reserves w event (u, some (stream, r)) =
    (is_empty stream ≡ false)
    × (u.auto_start.starter ≡ true)
    × (lookup stream u.auto_start.retries ≡ some r)
    × (has_key stream u.auto_start.stopped ≡ false)
    × (r.assignment_epoch ≡ waiting_epoch u.auto_start stream)
    × (authority_matches stream r.assignment_epoch event ≡ true)
    × (r.reconnect_generation ≡ u.reconnect_generation)
    × (r.guild_id ≡ event.guild_id)
    × (r.voice_channel_id ≡ event.voice_channel_id)
    × ((event.existing_presence ≡ false) ⊎ (has_key stream w.auto_start.stopped ≡ false))

reserve_start-Reserves :
    (w m : Manager) (event : VoiceJoinEvent) (now : ℕ) (stream : String)
    → is_empty stream ≡ false
    → m.auto_start.starter ≡ true
    → has_key stream m.auto_start.stopped ≡ false
    → authority_matches stream (waiting_epoch m.auto_start stream) event ≡ true
    → (event.existing_presence ≡ false) ⊎ (has_key stream w.auto_start.stopped ≡ false)
    → Reserves w event (reserve_start m event now stream)
unfolding reserve_start
reserve_start-Reserves w m event now stream named starter armed authorised fresh =
    if_case (Reserves w event) (start_held m.auto_start stream now) (λ _. tt) λ _. reserved_facts
  where
    reserved_facts :
        Reserves w event (reserved m event now stream, some (stream, new_retry m event stream))
    reserved_facts = (
      named,
      starter,
      lookup-insert_self stream (new_retry m event stream) m.auto_start.retries,
      armed,
      refl,
      authorised,
      refl,
      refl,
      refl,
      fresh,
    )

-- What arming a stream again leaves alone.
abbrev Rearmed : Manager → String → Manager → Type 0
Rearmed m stream u =
    (has_key stream u.auto_start.stopped ≡ false)
    × (u.auto_start.starter ≡ m.auto_start.starter)
    × (u.auto_start.stream_defaults ≡ m.auto_start.stream_defaults)
    × (u.auto_start.retries ≡ m.auto_start.retries)

rearm-Rearmed : (m : Manager) (stream : String) → Rearmed m stream (rearm m stream)
unfolding rearm
rearm-Rearmed m stream =
    if_case (Rearmed m stream) (has_key stream m.auto_start.stopped)
      (λ _. (ap is_some (lookup-delete_self stream m.auto_start.stopped), refl, refl, refl))
      λ armed. (armed, refl, refl, refl)

rearmed_epoch :
    (m : Manager) (stream : String)
    → waiting_epoch (rearm m stream).auto_start stream ≡ waiting_epoch m.auto_start stream
rearmed_epoch m stream =
    ap (λ ds. (get_or stream no_defaults ds).assignment_epoch) (rearm-Rearmed m stream).2

reserve-Reserves :
    (m : Manager) (event : VoiceJoinEvent) (now : ℕ) (stream : String)
    → Reserves m event (reserve m event now stream)
unfolding reserve
reserve-Reserves m event now stream =
    if_case (Reserves m event) (is_empty stream) (λ _. tt)
      λ named.
        if_case (Reserves m event)
          (not (authority_matches stream (waiting_epoch m.auto_start stream) event)) (λ _. tt)
          λ authorised.
            if_case (Reserves m event) (not m.auto_start.starter) (λ _. tt)
              λ starter.
                if_case (Reserves m event)
                  (has_key stream m.auto_start.stopped && event.existing_presence) (λ _. tt)
                  λ fresh.
                    reserve_start-Reserves m (rearm m stream) event now stream named
                      ((rearm-Rearmed m stream).1 ∙ ground arith) (rearm-Rearmed m stream).0
                      (ap (λ e. authority_matches stream e event) (rearmed_epoch m stream)
                        ∙ ground arith)
                      (ground arith)

after_refresh-Reserves :
    (m : Manager) (event : VoiceJoinEvent) (now : ℕ) (refreshed : Bool)
    → Reserves m event (after_refresh m event now refreshed)
unfolding after_refresh
after_refresh-Reserves m event now refreshed =
    let stream = matching_auto_start_stream m.auto_start event.guild_id event.voice_channel_id in
    if_case (Reserves m event) (not refreshed || not (is_empty m.current.stream_id)) (λ _. tt)
      λ _. reserve-Reserves m event now stream

-- The manager when a start is reserved: after other goroutines, and after the attempt to refresh
-- was noted if no waiting stream has the channel.
abbrev pub reserving_state : Manager → VoiceJoinEvent → ℕ → (Manager → Manager) → Manager
reserving_state m event now others =
    if is_empty (matching_auto_start_stream m.auto_start event.guild_id event.voice_channel_id)
      && refresh_due m.auto_start now
    then others (refreshing m now)
    else others m

join_waiting-Reserves :
    (m : Manager) (event : VoiceJoinEvent) (now : ℕ) (refreshed : Bool) (others : Manager → Manager)
    → Reserves
        (reserving_state m event now others)
        event
        (join_waiting m event now refreshed others)
unfolding join_waiting
join_waiting-Reserves m event now refreshed others =
    let stream = matching_auto_start_stream m.auto_start event.guild_id event.voice_channel_id in
    elim (Bool-cases (is_empty stream && refresh_due m.auto_start now)) [
      | inl due ↦ rw due (after_refresh-Reserves (others (refreshing m now)) event now refreshed)
      | inr not_due ↦ rw not_due (reserve-Reserves (others m) event now stream)
    ]

-- A join reserves a start only for a named stream, by a starter that is set, under the epoch with
-- which the stream waits, which the authority of the event names; a stream that was stopped when
-- it is reserved is reserved only by a join that is not an existing presence, and is then not a
-- stopped one any more; the reservation is on record, and it is for the generation of now and the
-- channel that was joined, whatever the refresh and other goroutines do before.
pub voice_user_joined-Reserves :
    (m : Manager) (event : VoiceJoinEvent) (now : ℕ) (refreshed : Bool) (others : Manager → Manager)
    → Reserves
        (reserving_state m (trimmed_event event) now others)
        (trimmed_event event)
        (voice_user_joined m event now refreshed others)
unfolding voice_user_joined user_joined
voice_user_joined-Reserves m event now refreshed others =
    let e = trimmed_event event in
    let w = reserving_state m e now others in
    let source = in_flight_stream_for_voice m.auto_stop e.guild_id e.voice_channel_id in
    if_case (Reserves w e)
      (is_empty e.guild_id || is_empty e.voice_channel_id || is_empty e.user_id) (λ _. tt)
      λ _.
        if_case (Reserves w e) (not (is_empty m.current.stream_id)) (λ _. tt)
          λ _.
            if_case (Reserves w e) (not (is_empty source)) (λ _. tt)
              λ _. join_waiting-Reserves m e now refreshed others

reserve_start-held :
    (m : Manager) (event : VoiceJoinEvent) (now : ℕ) (stream : String)
    → has_key stream m.auto_start.retries ≡ true
    → (reserve_start m event now stream).1 ≡ none
unfolding reserve_start
reserve_start-held m event now stream held = ground arith

reserve_start-free :
    (m : Manager) (event : VoiceJoinEvent) (now : ℕ) (stream : String)
    → has_key stream m.auto_start.retries ≡ false
    → lookup stream m.auto_start.pending ≡ none
    → is_some (reserve_start m event now stream).1 ≡ true
unfolding reserve_start
reserve_start-free m event now stream free idle = ground arith

-- While a start of a stream is reserved, a join reserves no other of it.
reserve-once :
    (m : Manager) (event : VoiceJoinEvent) (now : ℕ) (stream : String)
    → has_key stream m.auto_start.retries ≡ true
    → (reserve m event now stream).1 ≡ none
unfolding reserve
reserve-once m event now stream held =
    if_case None (is_empty stream) (λ _. refl)
      λ _.
        if_case None (not (authority_matches stream (waiting_epoch m.auto_start stream) event))
          (λ _. refl)
          λ _.
            if_case None (not m.auto_start.starter) (λ _. refl)
              λ _.
                if_case None (has_key stream m.auto_start.stopped && event.existing_presence)
                  (λ _. refl)
                  λ _.
                    reserve_start-held (rearm m stream) event now stream
                      (ap (λ rs. has_key stream rs) (rearm-Rearmed m stream).3 ∙ held)
  where
    None : Joined → Type 0
    None j = j.1 ≡ none

cancelled_retry :
    (a : StartState) (stream : String)
    → has_key stream (cancel_auto_start_retry a stream).retries ≡ false
unfolding cancel_auto_start_retry
cancelled_retry a stream = elim (Option-cases (lookup stream a.retries)) [
  | inl absent ↦ ground (arith, absent)
  | inr (r, there) ↦ ground (arith, there, lookup-delete_self stream a.retries)
]

give_up-frees :
    (m : Manager) (stream : String)
    → (has_key stream (give_up m stream).auto_start.retries ≡ false)
      × (lookup stream (give_up m stream).auto_start.pending ≡ none)
unfolding give_up
give_up-frees m stream = (
  cancelled_retry m.auto_start stream,
  lookup-delete_self stream (cancel_auto_start_retry m.auto_start stream).pending,
)

after_view-gives_up :
    (m : Manager) (stream : String) (r : AutoStartRetry)
    → retry_valid m stream r ≡ true
    → after_view m stream r false ≡ (give_up m stream, false)
unfolding after_view
after_view-gives_up m stream r valid = rw valid refl

absent_view :
    (m : Manager) (stream : String) (r : AutoStartRetry) (view : Presence)
    (others : Manager → Manager)
    → (view ≡ unknown) ⊎ (view ≡ known false)
    → view_presence m stream r view others ≡ after_view (others m) stream r false
unfolding view_presence
absent_view m stream r view others (inl e) = ap (λ v. view_presence m stream r v others) e
absent_view m stream r view others (inr e) = ap (λ v. view_presence m stream r v others) e

-- When the client knows of nobody in the channel, or does not know, a reservation that was valid
-- and still is after it was asked makes no request; it is gone, its cooldown too, and the next
-- reservation of the stream is not held back.
auto_start_retry_still_valid-frees :
    (m : Manager) (stream : String) (r : AutoStartRetry) (view : Presence)
    (others : Manager → Manager) (event : VoiceJoinEvent) (now : ℕ)
    → (view ≡ unknown) ⊎ (view ≡ known false)
    → retry_valid m stream r ≡ true
    → retry_valid (others m) stream r ≡ true
    → let (u, go) = auto_start_retry_still_valid m stream r view others in
      (go ≡ false)
      × (has_key stream u.auto_start.retries ≡ false)
      × (lookup stream u.auto_start.pending ≡ none)
      × (is_some (reserve_start u event now stream).1 ≡ true)
unfolding auto_start_retry_still_valid
auto_start_retry_still_valid-frees m stream r view others event now absent valid still =
    let (free, idle) = give_up-frees (others m) stream in
    rw
      (
        valid,
        absent_view m stream r view others absent,
        after_view-gives_up (others m) stream r still,
      )
      (refl, free, idle, reserve_start-free (give_up (others m) stream) event now stream free idle)

-- The end of a start that is on record, after its last answer was noted, frees its reservation;
-- its cooldown ends with it if that answer was that the node is busy and no job runs, and is left
-- otherwise.
finish_auto_start_retry-frees :
    (m : Manager) (stream : String) (r held : AutoStartRetry) (busy : Bool)
    → lookup stream m.auto_start.retries ≡ some held
    → held.id ≡ r.id
    → let noted = record m {
      auto_start = note_auto_start_capacity_result m.auto_start stream r busy;
    } in
      let u = finish_auto_start_retry noted stream r in
      (has_key stream u.auto_start.retries ≡ false)
      × (lookup stream u.auto_start.pending ≡ (
          if busy && is_empty m.current.stream_id
          then none
          else lookup stream m.auto_start.pending))
unfolding note_auto_start_capacity_result finish_auto_start_retry
finish_auto_start_retry-frees m stream r held busy there own =
    let marked =
      lookup-insert_self stream (record r { capacity_busy = busy }) m.auto_start.retries in
    ground (
      arith,
      there,
      own,
      marked,
      lookup-delete_self stream
          (insert stream (record r { capacity_busy = busy }) m.auto_start.retries),
      lookup-delete_self stream m.auto_start.pending,
    )
