-- ===== src/Forward/Voice/Tuning.antt =====
-- The sizes and times of the loop (`forwardOpus` and `unresolvedSSRCBufferWindow` in
-- internal/discord/audio_forward.go). A job's number that is not positive is 0.
use autostream_discord_bot.Base.{ℕ, ◌*◌, ◌≤◌, ◌<◌, not, ◌&&◌, arith, if◌then◌else◌, ltb, ◌==◌}
use autostream_discord_bot.Types.{VoiceJob}

abbrev pub millis : ℕ → ℕ
millis n = n * 1_000_000

abbrev pub encoder_batch_max : ℕ
encoder_batch_max = 50

abbrev pub encoder_flush_interval : ℕ
encoder_flush_interval = millis 100

unfoldable pub caption_batch_max : VoiceJob → ℕ
caption_batch_max job =
    if job.caption_audio_max_batch_packets == 0
    then 5
    else if ltb 100 job.caption_audio_max_batch_packets
    then 100
    else job.caption_audio_max_batch_packets

unfoldable pub caption_flush : VoiceJob → ℕ
caption_flush job =
    if job.caption_audio_flush_ms == 0
    then millis 100
    else if ltb (millis 1000) (millis job.caption_audio_flush_ms)
    then millis 1000
    else millis job.caption_audio_flush_ms

-- `unresolvedSSRCBufferWindow`.
unfoldable pub unresolved_window : VoiceJob → ℕ
unresolved_window job =
    if job.unresolved_ssrc_buffer_ms == 0 && not job.unresolved_ssrc_buffer_ms_set
    then millis 1000
    else millis job.unresolved_ssrc_buffer_ms

-- Whatever the job says, a caption batch has from 1 to 100 packets and waits at most a second.
caption_tuning-bounded :
    (job : VoiceJob)
    → (1 ≤ caption_batch_max job)
      × (caption_batch_max job ≤ 100)
      × (0 < caption_flush job)
      × (caption_flush job ≤ millis 1000)
unfolding caption_batch_max caption_flush
caption_tuning-bounded job = (ground arith, ground arith, ground arith, ground arith)
