-- ===== src/Tests.antt =====
-- Concrete jobs, reports and managers, on which the tests in the modules below run the operations
-- of internal/jobs and internal/davewatch and apply the theorems about them.
mod Queues
mod Rosters
mod Lifecycles
mod Stops
mod Starts
mod Watchdogs
mod Notifications
mod Requests
mod Forwards
use autostream_discord_bot.Base.{
  String, Bool, true, false, ◌≡◌, refl, Option, some, none, List, [], ◌∷◌, trim,
}
use autostream_discord_bot.Types.{
  VoiceJob, no_job, Participant, VoiceParticipant, ParticipantSnapshot,
}
use autostream_discord_bot.Retry.{Report, no_report, new_queue}
use autostream_discord_bot.Jobs.{Manager, RosterState, new_manager}

abbrev pub job : VoiceJob
job = record no_job {
  stream_id = "stream";
  guild_id = "guild";
  voice_channel_id = "voice";
  job_generation = 1;
}

abbrev pub other_job : VoiceJob
other_job = record job { stream_id = "other" }

abbrev pub ann : Participant
ann = record {
  user_id = "ann";
  username = "Ann";
  avatar_url = "";
  is_bot = false;
  speaking = false;
  joined_at = 3;
}

-- A manager whose job runs, with nobody in the channel.
abbrev pub alone : Manager
alone = record (new_manager true) {
  current = job;
  assignment_epoch = "epoch";
  reconnect_generation = 1;
  started_at = 3;
  worker_retry = some (1, new_queue);
  sync = some 2;
  next_id = 3;
  auto_stop = record (new_manager true).auto_stop { stopper = true };
}

abbrev pub ann_there : RosterState
ann_there = record {
  participants = ("ann", ann) ∷ [];
  snapshot_revision = 4;
  state_revision = 2;
  active_speaker = "ann";
  active_speakers = ("ann", true) ∷ [];
}

-- The same with one participant, who speaks.
abbrev pub occupied : Manager
occupied = record alone { roster = ann_there }

abbrev pub bob : VoiceParticipant
bob = record { user_id = "bob "; username = "Bob"; avatar_url = ""; is_bot = false }

abbrev pub snapshot : ParticipantSnapshot
snapshot = record {
  stream_id = "stream";
  guild_id = "guild";
  voice_channel_id = "voice";
  participants = bob ∷ [];
  revision = 7;
}

abbrev pub report : Report
report = record no_report {
  key = "stream\0participants";
  event_type = "overlay.participants";
  job = job;
  reconnect_generation = 1;
  participants = ann ∷ [];
}
