-- ===== src/Http.antt =====
-- The HTTP API of the bot (internal/httpapi): the codes that its handlers answer with, and the
-- modules of its parts.
pub mod StartJob
pub mod Token
pub mod Server
pub mod Identity
pub mod Youtube
use autostream_discord_bot.Base.{ℕ, String}

-- A response without its body: the status and the code of the body, empty where it has none.
pub record Reply : Type 0 where
  pub status : ℕ
  pub code : String

abbrev pub reply : ℕ → String → Reply
reply status code = record { status = status; code = code }
