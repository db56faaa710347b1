-- ===== src/Forward/Voice/Loop/Flow.antt =====
-- The way of a packet to the encoder (`forwardOpus` in internal/discord/audio_forward.go).
use autostream_discord_bot.Base.{
  ℕ, suc, ◌≤◌, ◌<◌, String, Bool, true, false, ◌≡◌, ◌⊎◌, inl, inr, refl, sym, ◌∙◌, subst, some, [],
  ◌∷◌, ◌++◌, arith, if◌then◌else◌, if_case, leb, is_empty, is_nil, trim, length,
}
use autostream_discord_bot.Types.{VoiceJob}
use autostream_discord_bot.Forward.{OpusPacket, Batch}
use autostream_discord_bot.Forward.Queue.{BatchQueue, enqueue_batch}
use autostream_discord_bot.Forward.Voice.{
  VoiceState, is_current_voice_job, record_audio_packet_received,
}
use autostream_discord_bot.Forward.Voice.Tuning.{encoder_batch_max, caption_batch_max}
use autostream_discord_bot.Forward.Voice.Loop.{
  LoopState, Moment, enqueue_encoder, flush_encoder, find_user, note_speaker, append_encoder,
  flush_caption_at, flush_encoder_at, route_caption, flush_full, take_packet, count_packet,
  on_packet, forwarded,
}
use autostream_discord_bot.Forward.Voice.Loop.Frame.{
  SameVoice, Kept, Kept-refl, Kept-trans, find_user-Kept, note_speaker-Kept, route_caption-Kept,
  flush_caption-Kept,
}

module _ (job : VoiceJob) (generation : ℕ) where
  -- The batch waits for more packets, or is full and goes to the queue as a whole.
  abbrev pub Placed : BatchQueue → Batch → LoopState → Type 0
  Placed q batch t =
      (length batch < encoder_batch_max) × (t.encoder_batch ≡ batch) × (t.encoder_queue ≡ q)
      ⊎ (encoder_batch_max ≤ length batch)
        × (t.encoder_batch ≡ [])
        × (t.encoder_queue ≡ (enqueue_batch q batch).0)

  SameVoice-current :
      (c d : VoiceState)
      → SameVoice c d
      → is_current_voice_job c job generation ≡ true
      → is_current_voice_job d job generation ≡ true
  unfolding is_current_voice_job
  SameVoice-current c d (g, j, v) h = rw (g, j, v) h

  flush_encoder-Placed :
      (s : LoopState)
      → is_current_voice_job s.client job generation ≡ true
      → is_nil s.encoder_batch ≡ false
      → ((flush_encoder job generation s).encoder_batch ≡ [])
        × ((flush_encoder job generation s).encoder_queue
            ≡ (enqueue_batch s.encoder_queue s.encoder_batch).0)
  unfolding flush_encoder enqueue_encoder
  flush_encoder-Placed s current some_packets = rw (some_packets, current) (refl, refl)

  captions-Kept :
      (s : LoopState) (now : ℕ) (full : Bool)
      → Kept s (if full then flush_caption_at job generation s now else s)
  captions-Kept s now full =
      if_case (Kept s) full (λ _. flush_caption-Kept job generation s) λ _. Kept-refl s

  full-ne : (batch : Batch) → encoder_batch_max ≤ length batch → is_nil batch ≡ false
  full-ne [] h = absurd (omega arith)
  full-ne (p ∷ ps) h = refl

  encoder-Placed :
      (q : BatchQueue) (batch : Batch) (s : LoopState) (now : ℕ)
      → s.encoder_batch ≡ batch
      → s.encoder_queue ≡ q
      → is_current_voice_job s.client job generation ≡ true
      → Placed q batch (
          if leb encoder_batch_max (length s.encoder_batch)
          then flush_encoder_at job generation s now
          else s)
  encoder-Placed q batch s now same_batch same_queue current =
      if_case (Placed q batch) (leb encoder_batch_max (length s.encoder_batch))
        (λ full.
          let (empty, queued) =
            flush_encoder-Placed s current (full-ne s.encoder_batch (ground arith)) in
          inr (
            subst (λ b. encoder_batch_max ≤ length b) same_batch (ground arith),
            empty,
            queued ∙ rw (same_batch, same_queue) refl,
          ))
        λ room. inl (
          subst (λ b. length b < encoder_batch_max) same_batch (ground arith),
          same_batch,
          same_queue,
        )

  flush_full-Placed :
      (s t : LoopState) (w : Moment)
      → Kept s t
      → is_current_voice_job s.client job generation ≡ true
      → Placed s.encoder_queue s.encoder_batch (flush_full job generation t w)
  unfolding flush_full
  flush_full-Placed s t w kept current =
      let full = leb (caption_batch_max job) (length t.caption_batch) in
      let captions = if full then flush_caption_at job generation t w.now else t in
      let (same_batch, same_queue, voice) =
        Kept-trans s t captions kept (captions-Kept t w.now full) in
      encoder-Placed s.encoder_queue s.encoder_batch captions w.now same_batch same_queue
        (SameVoice-current s.client captions.client voice current)

  append_encoder-batch :
      (s : LoopState) (packet : OpusPacket)
      → is_empty (trim job.encoder_audio_url) ≡ false
      → append_encoder job generation s packet
        ≡ record s { encoder_batch = s.encoder_batch ++ (packet ∷ []) }
  unfolding append_encoder
  append_encoder-batch s packet h = rw h refl

  take_packet-Placed :
      (s : LoopState) (w : Moment) (packet : OpusPacket) (user : String)
      → is_empty (trim job.encoder_audio_url) ≡ false
      → is_current_voice_job s.client job generation ≡ true
      → Placed s.encoder_queue
          (s.encoder_batch ++ (forwarded job generation packet user w.now ∷ []))
          (take_packet job generation s w packet user)
  unfolding take_packet
  take_packet-Placed s w packet user url current =
      let sent = forwarded job generation packet user w.now in
      let queued : LoopState = record s { encoder_batch = s.encoder_batch ++ (sent ∷ []) } in
      subst
        (λ (x : LoopState).
          Placed s.encoder_queue (s.encoder_batch ++ (sent ∷ []))
            (flush_full job generation (route_caption job generation x w sent user) w))
        (sym (append_encoder-batch s sent url))
        (flush_full-Placed queued (route_caption job generation queued w sent user) w
          (route_caption-Kept job generation queued w sent user) current)

  received :
      (c : VoiceState)
      → is_current_voice_job c job generation ≡ true
      → record_audio_packet_received c job generation ≡ (
        record c { audio_receiving = true; audio_packets_received = suc c.audio_packets_received },
        true,
      )
  unfolding record_audio_packet_received
  received c current = rw current refl

  Placed-from :
      (q r : BatchQueue) (b d tail : Batch) (t : LoopState)
      → q ≡ r
      → b ≡ d
      → Placed q (b ++ tail) t
      → Placed r (d ++ tail) t
  Placed-from q r b d tail t same_queue same_batch v =
      subst (λ x. Placed x (d ++ tail) t) same_queue
        (subst (λ x. Placed q (x ++ tail) t) same_batch v)

  count_packet-Placed :
      (s : LoopState) (w : Moment) (packet : OpusPacket) (user : String)
      → is_empty (trim job.encoder_audio_url) ≡ false
      → is_current_voice_job s.client job generation ≡ true
      → (t : LoopState) × (count_packet job generation s w packet user ≡ some t)
        × Placed s.encoder_queue
            (s.encoder_batch ++ (forwarded job generation packet user w.now ∷ []))
            t
  unfolding count_packet
  count_packet-Placed s w packet user url current =
      let noted = note_speaker job generation s w user in
      let (same_batch, same_queue, voice) = note_speaker-Kept job generation s w user in
      let still = SameVoice-current s.client noted.client voice current in
      let counted : LoopState = record noted {
        client = record noted.client {
          audio_receiving = true;
          audio_packets_received = suc noted.client.audio_packets_received;
        };
      } in
      (
        take_packet job generation counted w packet user,
        rw (received noted.client still) refl,
        Placed-from counted.encoder_queue s.encoder_queue counted.encoder_batch s.encoder_batch
            (forwarded job generation packet user w.now ∷ [])
            (take_packet job generation counted w packet user) same_queue same_batch
            (take_packet-Placed counted w packet user url
              (SameVoice-current noted.client counted.client (refl, refl, refl) still)),
      )

  -- A packet that is not empty, of the current connection and with an encoder to go to, is never
  -- dropped by the receive loop: it is added to the waiting encoder batch with the user that was
  -- found, and the batch then waits if it is not full, and is otherwise offered to the queue as a
  -- whole and starts again empty.
  pub on_packet-Placed :
      (s : LoopState) (w : Moment) (packet : OpusPacket)
      → is_empty (trim job.encoder_audio_url) ≡ false
      → is_current_voice_job s.client job generation ≡ true
      → is_nil packet.opus ≡ false
      → (t : LoopState) × (on_packet job generation s w packet ≡ some t)
        × Placed s.encoder_queue
            (s.encoder_batch
              ++ (forwarded job generation packet (find_user job generation s w packet.ssrc).1 w.now
                  ∷ []))
            t
  unfolding on_packet
  on_packet-Placed s w packet url current some_opus =
      let found = find_user job generation s w packet.ssrc in
      let (same_batch, same_queue, voice) = find_user-Kept job generation s w packet.ssrc in
      let (t, counted, placed) =
        count_packet-Placed found.0 w packet found.1 url
          (SameVoice-current s.client found.0.client voice current) in
      (
        t,
        rw (some_opus, current) counted,
        Placed-from found.0.encoder_queue s.encoder_queue found.0.encoder_batch s.encoder_batch
            (forwarded job generation packet found.1 w.now ∷ []) t same_queue same_batch placed,
      )
