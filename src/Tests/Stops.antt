-- ===== src/Tests/Stops.antt =====
-- Stopping a stream with an empty channel (internal/jobs/auto_stop.go) on concrete managers.
use autostream_discord_bot.Base.{
  get_or, next64, is_some, ◌⊎◌, true, false, ◌≡◌, refl, none, [], ◌∷◌, trim, lookup, has_key,
}
use autostream_discord_bot.Tests.{job, alone, occupied, snapshot}
use autostream_discord_bot.Types.{same_worker_event_job}
use autostream_discord_bot.Jobs.{Manager, StopState, Observation, new_manager}
use autostream_discord_bot.Jobs.AutoStop.{
  auto_stop_still_valid, auto_stop_still_valid_for_job, update_auto_stop, schedule_check, observed,
}
use autostream_discord_bot.Jobs.AutoStop.Cancel.{
  IsOver, Begins, update_auto_stop-occupied, update_auto_stop-Begins,
}
use autostream_discord_bot.Jobs.AutoStop.Check.{
  View, seen, no_source, again, sent, auto_stop_when_empty, begin_check, revalidate, found_empty,
  conclude, begin_request,
}
use autostream_discord_bot.Jobs.AutoStop.Check.Confirmed.{
  Reached, begun, looked, FoundEmpty, SomeEmpty, auto_stop_when_empty-confirmed,
}

-- A check of the stream is pending, and a request of generation 4 is under way.
abbrev stopping : StopState
stopping = record (new_manager true).auto_stop {
  stopper = true;
  pending = ("stream", true) ∷ [];
  generation = ("stream", 4) ∷ [];
  attempts = ("stream", 1) ∷ [];
  last_attempt = ("stream", 8) ∷ [];
  in_flight =
      ("stream", record { assignment_epoch = "epoch"; generation = 4; request = 6; job = job })
      ∷ [];
}

abbrev returned : Manager
returned = record occupied { auto_stop = stopping }

update_auto_stop-occupied_example :
    let (u, o) = update_auto_stop returned job 9 "voice_event" 4 in
    IsOver u.auto_stop "stream" 4
    × (get_or "stream" 0 u.auto_stop.generation
        ≡ next64 (get_or "stream" 0 returned.auto_stop.generation))
    × (has_key "stream" u.auto_stop.in_flight ≡ false)
    × (o ≡ none)
update_auto_stop-occupied_example =
    update_auto_stop-occupied returned job 9 "voice_event" 4 4 (unfold trim in refl) refl refl

update_auto_stop-Begins_example : Begins alone 9 (update_auto_stop alone job 9 "voice_event" 4)
update_auto_stop-Begins_example = update_auto_stop-Begins alone 9 "voice_event" 4

begins-alone : is_some (update_auto_stop alone job 9 "voice_event" 4).1 ≡ true
unfolding update_auto_stop schedule_check new_manager lookup
begins-alone = refl

-- The channel is found empty twice.
abbrev checking : Manager
checking = record alone {
  auto_stop = record alone.auto_stop {
    pending = ("stream", true) ∷ [];
    generation = ("stream", 1) ∷ [];
  };
}

abbrev first : Observation
first = record (observed alone job "voice_event" 4) { auto_stop_generation = 1 }

abbrev empty : View
empty = seen (record snapshot { participants = [] })

abbrev second : Observation
second = record first {
  snapshot_revision = snapshot.revision;
  participant_state_revision = checking.roster.state_revision;
  empty_revalidation_passed = true;
}

looks_again :
    (auto_stop_when_empty checking "stream" first (λ m. m) empty 9 (λ m. m) 10).1
    ≡ again second checking.auto_stop.empty_confirm_delay
unfolding auto_stop_when_empty begin_check revalidate found_empty conclude begin_request
    auto_stop_still_valid auto_stop_still_valid_for_job new_manager lookup same_worker_event_job
    trim
looks_again = refl

second-Reached : Reached "stream" second (empty ∷ [])
second-Reached =
    looked first second [] checking (λ m. m) empty 9 (λ m. m) 10
      checking.auto_stop.empty_confirm_delay (begun first refl) looks_again

sends : (auto_stop_when_empty checking "stream" second (λ m. m) empty 9 (λ m. m) 10).1 ≡ sent second
unfolding auto_stop_when_empty begin_check revalidate found_empty conclude begin_request
    auto_stop_still_valid auto_stop_still_valid_for_job new_manager lookup same_worker_event_job
    trim
sends = refl

auto_stop_when_empty-confirmed_example :
    let u = (auto_stop_when_empty checking "stream" second (λ m. m) empty 9 (λ m. m) 10).0 in
    ((empty ≡ no_source) ⊎ (FoundEmpty empty × SomeEmpty (empty ∷ [])))
    × (auto_stop_still_valid u "stream" 1 ≡ true)
    × (has_key "stream" u.auto_stop.in_flight ≡ true)
auto_stop_when_empty-confirmed_example =
    auto_stop_when_empty-confirmed "stream" second second (empty ∷ []) checking (λ m. m) empty 9
      (λ m. m) 10 second-Reached sends
