-- ===== src/Http/Server/Target.antt =====
-- The target of a v2 job on its way through the server and the manager: validDiscordID of
-- internal/httpapi/start_job_request.go, and the voice defaults of internal/jobs/voice_defaults.go.
use Prim.Native.Char.{Char, code}
use autostream_discord_bot.Base.{
  String, Bool, true, false, ◌&&◌, ◌≡◌, refl, ap, ◌∙◌, arith, leb, is_empty, is_space, trim,
  trim_left, trim_right, all_chars,
}
use autostream_discord_bot.Types.{VoiceJob}
use autostream_discord_bot.Jobs.{StartState}
use autostream_discord_bot.Jobs.Defaults.{apply_voice_defaults}
use autostream_discord_bot.Http.StartJob.{valid_discord_id}

abbrev is_digit : Char → Bool
is_digit c = leb 48 (code c) && leb (code c) 57

digit_ink : (c : Char) → is_digit c ≡ true → is_space c ≡ false
unfolding is_space
digit_ink c h = ground arith

trim_right-ne :
    (c : Char) (s : String) → is_space c ≡ false → is_empty (trim_right (String.◌∷◌ c s)) ≡ false
unfolding trim_right
trim_right-ne c s h = ground arith

trim_left-digit :
    (c : Char) (s : String) → is_digit c ≡ true → trim_left (String.◌∷◌ c s) ≡ String.◌∷◌ c s
unfolding trim_left
trim_left-digit c s h = ground (arith, digit_ink c h)

-- A text that begins with a digit is not blank.
digit-trim : (c : Char) (s : String) → is_digit c ≡ true → is_empty (trim (String.◌∷◌ c s)) ≡ false
unfolding trim
digit-trim c s h =
    ap (λ x. is_empty (trim_right x)) (trim_left-digit c s h) ∙ trim_right-ne c s (digit_ink c h)

pub valid_discord_id-trim :
    (value : String) → valid_discord_id value ≡ true → is_empty (trim value) ≡ false
unfolding valid_discord_id all_chars
valid_discord_id-trim String.[] h = cc h
valid_discord_id-trim (String.◌∷◌ c s) h = digit-trim c s (ground arith)

pub apply_voice_defaults-id :
    (a : StartState) (job : VoiceJob)
    → is_empty (trim job.guild_id) ≡ false
    → is_empty (trim job.voice_channel_id) ≡ false
    → is_empty (trim job.text_channel_id) ≡ false
    → apply_voice_defaults a job ≡ job
unfolding apply_voice_defaults
apply_voice_defaults-id a job g v t = rw (g, v, t) refl
