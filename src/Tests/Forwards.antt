-- ===== src/Tests/Forwards.antt =====
-- The delivery of voice packets (internal/audioforward, internal/discord/audio_forward.go) on
-- concrete packets.
use autostream_discord_bot.Base.{
  lookup, ◌<◌, ◌+◌, ◌≤◌, true, false, ◌≡◌, ◌⊎◌, refl, some, none, List, [], ◌∷◌, ◌++◌,
  if◌then◌else◌, ltb, ◌==◌, length, trim, trim_left, trim_right,
}
use autostream_discord_bot.Tests.{job}
use autostream_discord_bot.Types.{VoiceJob}
use autostream_discord_bot.Control.{Url}
use autostream_discord_bot.Jobs.{seconds}
use autostream_discord_bot.Forward.{OpusPacket, Batch}
use autostream_discord_bot.Forward.Queue.{
  Move, offers, takes, returns, cancels, run, new_line, new_batch_queue,
}
use autostream_discord_bot.Forward.Queue.Order.{accepted, run-new_line-placed}
use autostream_discord_bot.Forward.Client.{
  Config, Exchange, attempts_of, forward_opus, forward_opus_request_timeout, attempt_loop,
  after_attempt, judge, is_retryable_status, audio_endpoint, check_audio_url, wire_packets,
}
use autostream_discord_bot.Forward.Client.Budget.{
  IsEnough, attempts_time, forward_opus_request_timeout-IsEnough,
}
use autostream_discord_bot.Forward.Client.Attempts.{Run, Held, can_send, forward_opus-Run}
use autostream_discord_bot.Forward.Voice.{
  VoiceState, is_current_voice_job, same_voice_job, expire_idle_audio_speakers,
}
use autostream_discord_bot.Forward.Voice.Speakers.{told_stop, expire_idle_audio_speakers-exact}
use autostream_discord_bot.Forward.Voice.Loop.{LoopState, Moment, on_packet, forwarded, find_user}
use autostream_discord_bot.Forward.Voice.Loop.Flow.{Placed, on_packet-Placed}

abbrev packet : OpusPacket
packet = record {
  ssrc = 7;
  user_id = "";
  job_generation = 0;
  connection_generation = 0;
  sequence = 1;
  timestamp = 960;
  received_at = 0;
  opus = 1 ∷ [];
}

abbrev batch : Batch
batch = packet ∷ []

abbrev pair : Batch
pair = packet ∷ packet ∷ []

-- The second offer finds the queue full.
abbrev steps : List Move
steps = offers batch ∷ offers pair ∷ takes ∷ offers pair ∷ returns true ∷ cancels ∷ takes ∷ []

run-new_line-placed_example :
    let l = run (new_line 0) steps in
    (l.sent ++ (l.given_up ++ l.queue.batches) ≡ accepted (new_line 0) steps)
    × (length l.queue.batches ≤ (if ltb 0 1 then 1 else 0))
run-new_line-placed_example = run-new_line-placed 0 steps

abbrev config : Config
config = record { timeout = seconds 5; retry_max = 3; retry_base_delay = seconds 1 }

forward_opus_request_timeout-IsEnough_example :
    IsEnough
      (seconds 1 + attempts_time config (attempts_of config) 1)
      (forward_opus_request_timeout config)
forward_opus_request_timeout-IsEnough_example = forward_opus_request_timeout-IsEnough config

-- The first response asks for another attempt, the second accepts.
abbrev exchange : Exchange
exchange = record { answer = λ i. if i == 1 then some 503 else some 200; sleeps = λ i. true }

abbrev encoder : Url
encoder = record {
  scheme = "https";
  host = "encoder";
  hostname = "encoder";
  port = "";
  has_user = false;
  raw_query = "";
  fragment = "";
  path = "/";
  query_v = "";
}

forward_opus-Run_example :
    let r =
      forward_opus config "https://encoder/" "stream" "token" (some encoder) batch 9 exchange in
    (can_send "https://encoder/" "stream" "token" (some encoder) batch 9 ≡ false)
      × Held (wire_packets 9 batch) r
    ⊎ (can_send "https://encoder/" "stream" "token" (some encoder) batch 9 ≡ true)
      × Run exchange 3 1 r
forward_opus-Run_example =
    forward_opus-Run config "https://encoder/" "stream" "token" (some encoder) batch 9 exchange

-- Two requests: the first one is tried again, the second one is accepted.
two_requests :
    forward_opus config "https://encoder/" "stream" "token" (some encoder) batch 9 exchange
    ≡ (2, none)
unfolding forward_opus attempt_loop after_attempt judge is_retryable_status audio_endpoint
    check_audio_url wire_packets trim trim_left trim_right
two_requests = refl

abbrev loud : VoiceJob
loud = record job { encoder_audio_url = "https://encoder" }

abbrev client : VoiceState
client = record {
  job = loud;
  voice_generation = 2;
  voice_connected = true;
  ssrc_users = λ i. if i == 7 then "ann" else "";
  audio_speakers = [];
  audio_receiving = false;
  audio_packets_received = 0;
  audio_packets_forwarded = 0;
  caption_packets_forwarded = 0;
  audio_forward_errors = 0;
  caption_forward_errors = 0;
  audio_queue_drops = 0;
  caption_queue_drops = 0;
}

abbrev looping : LoopState
looping = record {
  client = client;
  encoder_queue = new_batch_queue 64;
  caption_queue = new_batch_queue 64;
  encoder_batch = [];
  caption_batch = [];
  last_encoder_flush = 1;
  last_caption_flush = 1;
  fallback_user = "";
  fallback_checked_at = 0;
  unresolved = [];
  told = [];
}

abbrev moment : Moment
moment = record { now = 9; resolver = λ i. ""; sole_human = "" }

on_packet-Placed_example :
    (t : LoopState) × (on_packet loud 2 looping moment packet ≡ some t)
    × Placed loud 2 looping.encoder_queue
        (looping.encoder_batch
          ++ (forwarded loud 2 packet (find_user loud 2 looping moment packet.ssrc).1 9 ∷ []))
        t
on_packet-Placed_example =
    on_packet-Placed loud 2 looping moment packet (unfold trim trim_left trim_right in refl)
      (unfold is_current_voice_job same_voice_job trim trim_left trim_right in refl) refl

abbrev talking : VoiceState
talking = record client { audio_speakers = ("ann", 5) ∷ ("bob", 2_000_000_000) ∷ [] }

expire_idle_audio_speakers-exact_example :
    let (u, told) = expire_idle_audio_speakers talking loud 2 2_000_000_000 (λ d. d) in
    (5 + 1_250_000_000 ≤ 2_000_000_000)
      × (lookup "ann" u.audio_speakers ≡ none)
      × (told_stop "ann" told ≡ true)
    ⊎ (2_000_000_000 < 5 + 1_250_000_000)
      × (lookup "ann" u.audio_speakers ≡ some 5)
      × (told_stop "ann" told ≡ false)
expire_idle_audio_speakers-exact_example =
    expire_idle_audio_speakers-exact talking loud 2 2_000_000_000 5 "ann"
      (unfold lookup in (refl, (refl, tt)))
      (unfold is_current_voice_job same_voice_job trim trim_left trim_right in refl) refl
      (unfold trim trim_left trim_right in refl) refl (unfold lookup in refl)
