-- ===== src/Forward.antt =====
-- The delivery of voice packets to the encoder and the caption service: internal/audioforward and
-- the loop of internal/discord/audio_forward.go.
pub mod Queue
pub mod Client
pub mod Voice
use autostream_discord_bot.Base.{ℕ, String, List}

-- `OpusPacket`; `opus` is a list of bytes.
pub record OpusPacket : Type 0 where
  pub ssrc : ℕ
  pub user_id : String
  pub job_generation : ℕ
  pub connection_generation : ℕ
  pub sequence : ℕ
  pub timestamp : ℕ
  pub received_at : ℕ
  pub opus : List ℕ

abbrev pub Batch : Type 0
Batch = List OpusPacket
