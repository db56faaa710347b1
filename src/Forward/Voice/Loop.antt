-- ===== src/Forward/Voice/Loop.antt =====
-- The state and the two events of `forwardOpus` (internal/discord/audio_forward.go): a tick of its
-- timer and a packet. What it hands to the two queues is a list of batches.
pub mod Frame
pub mod Flow
use autostream_discord_bot.Base.{
  ℕ, suc, ◌+◌, ◌-◌, String, Bool, true, false, not, ◌&&◌, ◌||◌, Option, none, some, List, [], ◌∷◌,
  ◌++◌, if◌then◌else◌, ltb, leb, ◌==◌, is_empty, is_nil, trim, length,
}
use autostream_discord_bot.Types.{VoiceJob}
use autostream_discord_bot.Forward.{OpusPacket, Batch}
use autostream_discord_bot.Forward.Queue.{BatchQueue, enqueue_batch}
use autostream_discord_bot.Forward.Voice.{
  VoiceState, Told, is_current_voice_job, set_forward_error_for_job,
  record_forward_queue_drop_for_job, record_audio_packet_received, record_audio_speaker_activity,
  expire_idle_audio_speakers, user_for_ssrc,
}
use autostream_discord_bot.Forward.Voice.Tuning.{
  millis, encoder_batch_max, encoder_flush_interval, caption_batch_max, caption_flush,
  unresolved_window,
}

-- A buffer of packets without a user: `unresolved` and `unresolvedSince` of its SSRC.
pub record Unresolved : Type 0 where
  pub ssrc : ℕ
  pub since : ℕ
  pub packets : Batch

-- The variables of the loop, with the queues of its targets and the client's state. A time is 0
-- before the first check.
pub record LoopState : Type 0 where
  pub client : VoiceState
  pub encoder_queue : BatchQueue
  pub caption_queue : BatchQueue
  pub encoder_batch : Batch
  pub caption_batch : Batch
  pub last_encoder_flush : ℕ
  pub last_caption_flush : ℕ
  pub fallback_user : String
  pub fallback_checked_at : ℕ
  pub unresolved : List Unresolved
  pub told : Told

-- What the loop reads when it runs: the time, the SSRC map of the Discord library, and the only
-- human of the channel.
pub record Moment : Type 0 where
  pub now : ℕ
  pub resolver : ℕ → String
  pub sole_human : String

abbrev pub max_unresolved : ℕ
max_unresolved = 50

-- What `Enqueue` answered, and the drop that is counted when it refused.
unfoldable pub note_drop : VoiceState → VoiceJob → ℕ → Bool → Batch → Bool → VoiceState
note_drop c job generation caption batch taken =
    if taken then c else record_forward_queue_drop_for_job c job generation caption (length batch)

module _ (job : VoiceJob) (generation : ℕ) where
  -- `enqueueOpusForwardBatch` for each target; a batch that is not empty has a target.
  unfoldable pub enqueue_encoder : LoopState → Batch → LoopState
  enqueue_encoder s batch =
      let r = enqueue_batch s.encoder_queue batch in
      if is_nil batch || not (is_current_voice_job s.client job generation) then s else record s {
        encoder_queue = r.0;
        client = note_drop s.client job generation false batch r.1;
      }

  unfoldable pub enqueue_caption : LoopState → Batch → LoopState
  enqueue_caption s batch =
      let r = enqueue_batch s.caption_queue batch in
      if is_nil batch || not (is_current_voice_job s.client job generation) then s else record s {
        caption_queue = r.0;
        client = note_drop s.client job generation true batch r.1;
      }

  -- `flush(false)` and `flush(true)`.
  unfoldable pub flush_encoder : LoopState → LoopState
  flush_encoder s = enqueue_encoder (record s { encoder_batch = [] }) s.encoder_batch

  unfoldable pub flush_caption : LoopState → LoopState
  flush_caption s =
      let emptied = record s { caption_batch = [] } in
      if is_nil s.caption_batch
      then emptied
      else if is_empty (trim job.caption_audio_token)
      then record emptied { client = set_forward_error_for_job s.client job generation true }
      else enqueue_caption emptied s.caption_batch

  -- `resolveFallbackUser`.
  unfoldable pub resolve_fallback_user : LoopState → Moment → LoopState × String
  resolve_fallback_user s w =
      if not (s.fallback_checked_at == 0) && ltb (w.now - s.fallback_checked_at) (millis 250)
      then (s, s.fallback_user)
      else (record s { fallback_checked_at = w.now; fallback_user = w.sole_human }, w.sole_human)

  -- The user of an SSRC, or the only human.
  unfoldable pub find_user : LoopState → Moment → ℕ → LoopState × String
  unfolding resolve_fallback_user
  find_user s w ssrc =
      let r = user_for_ssrc s.client w.resolver ssrc generation in
      let known = record s { client = r.0 } in
      if is_empty r.1 then resolve_fallback_user known w else (known, r.1)

  -- A user is known to speak. In the loop nothing acts between what is recorded and what is told.
  unfoldable pub note_speaker : LoopState → Moment → String → LoopState
  note_speaker s w user =
      let r = record_audio_speaker_activity s.client job generation user w.now (λ c. c) in
      record s { client = r.0; told = r.1 ++ s.told }

  abbrev pub set_users : String → Batch → Batch
  set_users user [] = []
  set_users user (p ∷ rest) = record p { user_id = user } ∷ set_users user rest

  unfoldable pub append_caption : LoopState → Batch → LoopState
  append_caption s packets =
      if is_empty (trim job.caption_audio_url)
      then s
      else record s { caption_batch = s.caption_batch ++ packets }

  unfoldable pub append_encoder : LoopState → OpusPacket → LoopState
  append_encoder s packet =
      if is_empty (trim job.encoder_audio_url)
      then s
      else record s { encoder_batch = s.encoder_batch ++ (packet ∷ []) }

  -- A round of `flushExpiredUnresolved`, which keeps the buffer while it may yet find its user.
  unfoldable pub settle_unresolved : LoopState × String → Moment → Unresolved → LoopState
  unfolding note_speaker append_caption
  settle_unresolved (s, user) w u =
      if is_empty user && ltb (w.now - u.since) (unresolved_window job)
      then record s { unresolved = s.unresolved ++ (u ∷ []) }
      else append_caption (if is_empty user then s else note_speaker s w user)
          (set_users user u.packets)

  unfoldable pub flush_buffers : LoopState → Moment → List Unresolved → LoopState
  flush_buffers s w [] = s
  flush_buffers s w (u ∷ rest) = flush_buffers (settle_unresolved (find_user s w u.ssrc) w u) w rest

  -- `flushExpiredUnresolved(now, false)`; the order of the map is the order of the list.
  unfoldable pub flush_expired_unresolved : LoopState → Moment → LoopState
  flush_expired_unresolved s w = flush_buffers (record s { unresolved = [] }) w s.unresolved

  abbrev pub flush_caption_at : LoopState → ℕ → LoopState
  flush_caption_at s now = record (flush_caption s) { last_caption_flush = now }

  abbrev pub flush_encoder_at : LoopState → ℕ → LoopState
  flush_encoder_at s now = record (flush_encoder s) { last_encoder_flush = now }

  unfoldable pub flush_due : LoopState → Moment → LoopState
  unfolding flush_caption flush_encoder
  flush_due s w =
      let captions =
        if leb (caption_flush job) (w.now - s.last_caption_flush)
        then flush_caption_at s w.now
        else s in
      if leb encoder_flush_interval (w.now - captions.last_encoder_flush)
      then flush_encoder_at captions w.now
      else captions

  -- A tick of the timer; `none` is the return of the loop.
  unfoldable pub on_tick : LoopState → Moment → Option LoopState
  unfolding flush_due flush_expired_unresolved
  on_tick s w =
      let flushed = flush_due (flush_expired_unresolved s w) w in
      let expired = expire_idle_audio_speakers flushed.client job generation w.now (λ c. c) in
      if not (is_current_voice_job s.client job generation)
      then none
      else some (record flushed { client = expired.0; told = expired.1 ++ flushed.told })

  -- A packet without a user waits in the buffer of its SSRC, unless that is full.
  unfoldable pub buffer_packet : ℕ → OpusPacket → List Unresolved → List Unresolved
  buffer_packet now packet [] =
      record { ssrc = packet.ssrc; since = now; packets = packet ∷ [] } ∷ []
  buffer_packet now packet (u ∷ rest) =
      let others = buffer_packet now packet rest in
      if not (u.ssrc == packet.ssrc)
      then u ∷ others
      else if ltb (length u.packets) max_unresolved
      then record u { packets = u.packets ++ (packet ∷ []) } ∷ rest
      else u ∷ rest

  -- Where the captions get the packet from.
  unfoldable pub route_caption : LoopState → Moment → OpusPacket → String → LoopState
  unfolding flush_expired_unresolved append_caption
  route_caption s w packet user =
      if is_empty (trim job.caption_audio_url)
      then s
      else if is_empty user && ltb 0 (unresolved_window job)
      then record s { unresolved = buffer_packet w.now packet s.unresolved }
      else append_caption (flush_expired_unresolved s w) (packet ∷ [])

  unfoldable pub flush_full : LoopState → Moment → LoopState
  unfolding flush_caption flush_encoder
  flush_full s w =
      let captions =
        if leb (caption_batch_max job) (length s.caption_batch)
        then flush_caption_at s w.now
        else s in
      if leb encoder_batch_max (length captions.encoder_batch)
      then flush_encoder_at captions w.now
      else captions

  -- The packet as it is forwarded.
  abbrev pub forwarded : OpusPacket → String → ℕ → OpusPacket
  forwarded packet user now = record packet {
    user_id = user;
    received_at = now;
    job_generation = job.job_generation;
    connection_generation = generation;
  }

  -- The rest of a packet whose user is looked up and which is counted.
  unfoldable pub take_packet : LoopState → Moment → OpusPacket → String → LoopState
  unfolding append_encoder route_caption flush_full
  take_packet s w packet user =
      flush_full
        (route_caption (append_encoder s (forwarded packet user w.now)) w
          (forwarded packet user w.now) user)
        w

  unfoldable pub count_packet : LoopState → Moment → OpusPacket → String → Option LoopState
  count_packet s w packet user =
      let noted = note_speaker s w user in
      let r = record_audio_packet_received noted.client job generation in
      if r.1 then some (take_packet (record noted { client = r.0 }) w packet user) else none

  -- A packet from the connection; `none` is the return of the loop.
  unfoldable pub on_packet : LoopState → Moment → OpusPacket → Option LoopState
  unfolding count_packet find_user
  on_packet s w packet =
      let r = find_user s w packet.ssrc in
      if is_nil packet.opus
      then some s
      else if not (is_current_voice_job s.client job generation)
      then none
      else count_packet r.0 w packet r.1
