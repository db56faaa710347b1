-- ===== src/Tests/Rosters.antt =====
-- The participants, the reports about them and the fields of chat messages (internal/jobs) on
-- concrete managers.
use autostream_discord_bot.Base.{
  append, ℕ, true, false, ◌≡◌, ◌≤◌, ◌<◌, refl, ◌⊎◌, inr, some, [], ◌∷◌, arith, trim, lookup,
  has_key,
}
use autostream_discord_bot.Types.{ParticipantEvent, same_worker_event_job}
use autostream_discord_bot.Tests.{job, ann, occupied, ann_there, snapshot, report}
use autostream_discord_bot.Retry.{Report, Queue, new_queue, is_latest}
use autostream_discord_bot.Jobs.{Manager, new_manager}
use autostream_discord_bot.Jobs.Roster.{
  ApplyOptions, participant_changed, apply_snapshot, is_foreign, events_paused,
}
use autostream_discord_bot.Jobs.Roster.Invariant.{RosterInv}
use autostream_discord_bot.Jobs.Roster.Snapshots.{
  listed_in, participant_changed-RosterInv, apply_snapshot-RosterInv, apply_snapshot-exact,
}
use autostream_discord_bot.Jobs.Delivery.{
  participants_retry_key, participants_report, begin_delivery, publishes,
}
use autostream_discord_bot.Jobs.Delivery.Chat.{rune_count, trim_chat_field, trim_chat_field_bounded}

ann_there-RosterInv : RosterInv ann_there
unfolding lookup
ann_there-RosterInv = record {
  participants_map = (refl, tt);
  speakers_map = (refl, tt);
  present = λ user h. ground (arith, h);
  highlighted = inr refl;
}

abbrev leaves : ParticipantEvent
leaves = record {
  stream_id = "stream";
  guild_id = "guild";
  voice_channel_id = "voice";
  user_id = "ann";
  username = "Ann";
  avatar_url = "";
  is_bot = false;
  present = false;
}

participant_changed-RosterInv_example : RosterInv (participant_changed occupied leaves 9).0.roster
participant_changed-RosterInv_example =
    participant_changed-RosterInv occupied leaves 9 ann_there-RosterInv

abbrev options : ApplyOptions
options = record {
  expected_generation = 1;
  require_generation = true;
  authoritative_replay = true;
  expected_state_revision = 2;
  require_state_revision = true;
}

apply_snapshot-RosterInv_example : RosterInv (apply_snapshot occupied snapshot options 9).0.roster
apply_snapshot-RosterInv_example =
    apply_snapshot-RosterInv occupied snapshot options 9 ann_there-RosterInv

-- The snapshot lists Bob alone: Bob is there afterwards.
apply_snapshot-exact_example :
    ((apply_snapshot occupied snapshot options 9).1 ≡ true)
    × (has_key "bob" (apply_snapshot occupied snapshot options 9).0.roster.participants
        ≡ listed_in "bob" snapshot.participants)
apply_snapshot-exact_example =
    apply_snapshot-exact occupied snapshot options 9 "bob"
      (unfold is_foreign events_paused new_manager in refl) refl refl refl

bob-listed : listed_in "bob" snapshot.participants ≡ true
unfolding trim
bob-listed = refl

abbrev late_options : ApplyOptions
late_options = record options { expected_state_revision = 1 }

-- The participants to report were overtaken by one more change.
participants_report-occupied :
    participants_report occupied job [] 1 1
    ≡ some
        (record report { participants = record ann { speaking = true } ∷ []; state_revision = 2 })
unfolding participants_report new_manager same_worker_event_job trim participants_retry_key lookup
    append
participants_report-occupied = refl

abbrev waiting : Report
waiting = record report { sequence = 5; attempts = 2 }

abbrev queue : Queue
queue = record new_queue { latest = (report.key, 5) ∷ []; sequence = 5 }

abbrev delivering : Manager
delivering = record occupied { worker_retry = some (1, queue) }

begin_delivery-waiting : begin_delivery delivering 1 queue waiting (λ m. m) (λ m. m) ≡ (
  delivering,
  publishes (record waiting {
    attempts = 3;
    participants = record ann { speaking = true } ∷ [];
    state_revision = 2;
  }),
)
unfolding begin_delivery new_manager new_queue is_latest lookup same_worker_event_job trim
begin_delivery-waiting = refl

abbrev limit : ℕ
limit = 3

trim_chat_field_bounded_example :
    (rune_count (trim_chat_field " hello " limit) ≤ limit)
    × (trim (trim_chat_field " hello " limit) ≡ trim_chat_field " hello " limit)
    × ((limit ≡ 0)
        ⊎ (limit < rune_count (trim " hello "))
        ⊎ (trim_chat_field " hello " limit ≡ trim " hello "))
trim_chat_field_bounded_example = trim_chat_field_bounded " hello " limit
