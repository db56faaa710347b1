-- ===== src/Forward/Voice/Loop/Frame.antt =====
-- What the captions leave alone (`forwardOpus` in internal/discord/audio_forward.go): the batch and
-- the queue of the encoder, and the connection.
use autostream_discord_bot.Base.{
  ℕ, ◌-◌, String, Bool, true, not, ◌&&◌, ◌||◌, ◌≡◌, refl, ◌∙◌, List, [], ◌∷◌, if◌then◌else◌,
  if_case, ltb, ◌==◌, is_empty, is_nil, trim, has_key,
}
use autostream_discord_bot.Types.{VoiceJob}
use autostream_discord_bot.Forward.{OpusPacket, Batch}
use autostream_discord_bot.Forward.Queue.{enqueue_batch}
use autostream_discord_bot.Forward.Voice.{
  VoiceState, Told, is_current_voice_job, set_forward_error_for_job,
  record_forward_queue_drop_for_job, record_audio_speaker_activity, user_for_ssrc,
  resolve_ssrc_user_id,
}
use autostream_discord_bot.Forward.Voice.Tuning.{millis, unresolved_window}
use autostream_discord_bot.Forward.Voice.Loop.{
  LoopState, Moment, Unresolved, note_drop, enqueue_caption, flush_caption, resolve_fallback_user,
  find_user, note_speaker, append_caption, settle_unresolved, flush_buffers,
  flush_expired_unresolved, route_caption, set_users,
}

-- The connection of the client is the same.
abbrev pub SameVoice : VoiceState → VoiceState → Type 0
SameVoice c d =
    (d.voice_generation ≡ c.voice_generation)
    × (d.job ≡ c.job)
    × (d.voice_connected ≡ c.voice_connected)

-- The encoder's batch and queue are the same, and the connection is.
abbrev pub Kept : LoopState → LoopState → Type 0
Kept s t =
    (t.encoder_batch ≡ s.encoder_batch)
    × (t.encoder_queue ≡ s.encoder_queue)
    × SameVoice s.client t.client

pub SameVoice-refl : (c : VoiceState) → SameVoice c c
SameVoice-refl c = (refl, refl, refl)

pub Kept-refl : (s : LoopState) → Kept s s
Kept-refl s = (refl, refl, SameVoice-refl s.client)

pub Kept-trans : (s t u : LoopState) → Kept s t → Kept t u → Kept s u
Kept-trans s t u (a, b, (c, d, e)) (a', b', (c', d', e')) =
    (a' ∙ a, b' ∙ b, (c' ∙ c, d' ∙ d, e' ∙ e))

module _ (c : VoiceState) where
  user_for_ssrc-SameVoice :
      (resolver : ℕ → String) (ssrc generation : ℕ)
      → SameVoice c (user_for_ssrc c resolver ssrc generation).0
  unfolding user_for_ssrc
  user_for_ssrc-SameVoice resolver ssrc generation =
      if_case Same (not (c.voice_generation == generation && c.voice_connected))
        (λ _. SameVoice-refl c)
        λ _.
          if_case Same (not (is_empty (trim (c.ssrc_users ssrc)))) (λ _. SameVoice-refl c)
            λ _.
              if_case Same (is_empty (resolve_ssrc_user_id resolver ssrc)) (λ _. SameVoice-refl c)
                λ _. SameVoice-refl c
    where
      Same : VoiceState × String → Type 0
      Same p = SameVoice c p.0

  record_audio_speaker_activity-SameVoice :
      (job : VoiceJob) (generation : ℕ) (user : String) (now : ℕ)
      → SameVoice c (record_audio_speaker_activity c job generation user now (λ d. d)).0
  unfolding record_audio_speaker_activity
  record_audio_speaker_activity-SameVoice job generation user now =
      if_case Same (is_empty (trim user) || not (is_current_voice_job c job generation))
        (λ _. SameVoice-refl c)
        λ _.
          if_case Same (has_key (trim user) c.audio_speakers) (λ _. SameVoice-refl c)
            λ _. SameVoice-refl c
    where
      Same : VoiceState × Told → Type 0
      Same p = SameVoice c p.0

  set_forward_error_for_job-SameVoice :
      (job : VoiceJob) (generation : ℕ) (caption : Bool)
      → SameVoice c (set_forward_error_for_job c job generation caption)
  unfolding set_forward_error_for_job
  set_forward_error_for_job-SameVoice job generation caption =
      if_case (SameVoice c) (not (is_current_voice_job c job generation)) (λ _. SameVoice-refl c)
        λ _. if_case (SameVoice c) caption (λ _. SameVoice-refl c) λ _. SameVoice-refl c

  note_drop-SameVoice :
      (job : VoiceJob) (generation : ℕ) (caption : Bool) (batch : Batch) (taken : Bool)
      → SameVoice c (note_drop c job generation caption batch taken)
  unfolding note_drop record_forward_queue_drop_for_job
  note_drop-SameVoice job generation caption batch taken =
      if_case (SameVoice c) taken (λ _. SameVoice-refl c)
        λ _.
          if_case (SameVoice c) (not (is_current_voice_job c job generation))
            (λ _. SameVoice-refl c)
            λ _. if_case (SameVoice c) caption (λ _. SameVoice-refl c) λ _. SameVoice-refl c

module _ (job : VoiceJob) (generation : ℕ) where
  resolve_fallback_user-Kept :
      (s : LoopState) (w : Moment) → Kept s (resolve_fallback_user job generation s w).0
  unfolding resolve_fallback_user
  resolve_fallback_user-Kept s w =
      if_case (λ (p : LoopState × String). Kept s p.0)
        (not (s.fallback_checked_at == 0) && ltb (w.now - s.fallback_checked_at) (millis 250))
        (λ _. Kept-refl s) λ _. Kept-refl s

  pub find_user-Kept :
      (s : LoopState) (w : Moment) (ssrc : ℕ) → Kept s (find_user job generation s w ssrc).0
  unfolding find_user
  find_user-Kept s w ssrc =
      if_case (λ (p : LoopState × String). Kept s p.0)
        (is_empty (user_for_ssrc s.client w.resolver ssrc generation).1)
        (λ _.
          Kept-trans s known (resolve_fallback_user job generation known w).0 known-Kept
            (resolve_fallback_user-Kept known w))
        λ _. known-Kept
    where
      known : LoopState
      known = record s { client = (user_for_ssrc s.client w.resolver ssrc generation).0 }

      known-Kept : Kept s known
      known-Kept = (refl, refl, user_for_ssrc-SameVoice s.client w.resolver ssrc generation)

  pub note_speaker-Kept :
      (s : LoopState) (w : Moment) (user : String) → Kept s (note_speaker job generation s w user)
  unfolding note_speaker
  note_speaker-Kept s w user =
      (refl, refl, record_audio_speaker_activity-SameVoice s.client job generation user w.now)

  append_caption-Kept :
      (s : LoopState) (packets : Batch) → Kept s (append_caption job generation s packets)
  unfolding append_caption
  append_caption-Kept s packets =
      if_case (Kept s) (is_empty (trim job.caption_audio_url)) (λ _. Kept-refl s) λ _. Kept-refl s

  speaker_if-Kept :
      (s : LoopState) (w : Moment) (user : String) (b : Bool)
      → Kept s (if b then s else note_speaker job generation s w user)
  speaker_if-Kept s w user b = if_case (Kept s) b (λ _. Kept-refl s) λ _. note_speaker-Kept s w user

  settle_unresolved-Kept :
      (p : LoopState × String) (w : Moment) (u : Unresolved)
      → Kept p.0 (settle_unresolved job generation p w u)
  unfolding settle_unresolved
  settle_unresolved-Kept (s, user) w u =
      if_case (Kept s) (is_empty user && ltb (w.now - u.since) (unresolved_window job))
        (λ _. Kept-refl s)
        λ _.
          let noted = if is_empty user then s else note_speaker job generation s w user in
          let packets = set_users job generation user u.packets in
          Kept-trans s noted (append_caption job generation noted packets)
            (speaker_if-Kept s w user (is_empty user)) (append_caption-Kept noted packets)

  flush_buffers-Kept :
      (us : List Unresolved) (s : LoopState) (w : Moment)
      → Kept s (flush_buffers job generation s w us)
  unfolding flush_buffers
  flush_buffers-Kept [] s w = Kept-refl s
  flush_buffers-Kept (u ∷ us) s w =
      let found = find_user job generation s w u.ssrc in
      let settled = settle_unresolved job generation found w u in
      Kept-trans s settled (flush_buffers job generation settled w us)
        (Kept-trans s found.0 settled (find_user-Kept s w u.ssrc)
          (settle_unresolved-Kept found w u))
        (flush_buffers-Kept us settled w)

  pub flush_expired_unresolved-Kept :
      (s : LoopState) (w : Moment) → Kept s (flush_expired_unresolved job generation s w)
  unfolding flush_expired_unresolved
  flush_expired_unresolved-Kept s w =
      flush_buffers-Kept s.unresolved (record s { unresolved = [] }) w

  pub route_caption-Kept :
      (s : LoopState) (w : Moment) (packet : OpusPacket) (user : String)
      → Kept s (route_caption job generation s w packet user)
  unfolding route_caption
  route_caption-Kept s w packet user =
      if_case (Kept s) (is_empty (trim job.caption_audio_url)) (λ _. Kept-refl s)
        λ _.
          if_case (Kept s) (is_empty user && ltb 0 (unresolved_window job)) (λ _. Kept-refl s)
            λ _.
              let flushed = flush_expired_unresolved job generation s w in
              Kept-trans s flushed (append_caption job generation flushed (packet ∷ []))
                (flush_expired_unresolved-Kept s w) (append_caption-Kept flushed (packet ∷ []))

  enqueue_caption-Kept :
      (s : LoopState) (batch : Batch) → Kept s (enqueue_caption job generation s batch)
  unfolding enqueue_caption
  enqueue_caption-Kept s batch =
      if_case (Kept s) (is_nil batch || not (is_current_voice_job s.client job generation))
        (λ _. Kept-refl s)
        λ _. (
          refl,
          refl,
          note_drop-SameVoice s.client job generation true batch
              (enqueue_batch s.caption_queue batch).1,
        )

  pub flush_caption-Kept : (s : LoopState) → Kept s (flush_caption job generation s)
  unfolding flush_caption
  flush_caption-Kept s =
      if_case (Kept s) (is_nil s.caption_batch) (λ _. Kept-refl s)
        λ _.
          if_case (Kept s) (is_empty (trim job.caption_audio_token))
            (λ _. (refl, refl, set_forward_error_for_job-SameVoice s.client job generation true))
            λ _. enqueue_caption-Kept (record s { caption_batch = [] }) s.caption_batch
