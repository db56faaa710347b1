-- ===== src/Tests/Lifecycles.antt =====
-- Starting, stopping and rejoining (internal/jobs/manager.go and reconnect.go) on concrete managers.
use autostream_discord_bot.Base.{true, false, ◌≡◌, refl, inl, inr, some, none, [], ◌∷◌}
use autostream_discord_bot.Types.{no_chat}
use autostream_discord_bot.Tests.{job, ann, alone, occupied, report}
use autostream_discord_bot.Retry
use autostream_discord_bot.Retry.{Queue, no_report, new_queue}
use autostream_discord_bot.Jobs.{new_manager}
use autostream_discord_bot.Jobs.AutoStop.Check.{no_source}
use autostream_discord_bot.Jobs.Delivery.{
  participants_report, speaker_report, begin_delivery, refresh_retry_report, drops, enqueue_retry,
}
use autostream_discord_bot.Jobs.Delivery.Chat.{chat_to_publish}
use autostream_discord_bot.Jobs.Lifecycle.{Round, begin_stop, rejoined}
use autostream_discord_bot.Jobs.Lifecycle.Fences.{lifecycle-silences, rejoined-stops_foreign_queue}

lifecycle-silences_example :
    (participants_report (begin_stop occupied) job (ann ∷ []) 2 occupied.reconnect_generation
      ≡ none)
    × (speaker_report (begin_stop occupied) job "ann" "Ann" true 2 occupied.reconnect_generation
        ≡ none)
    × (chat_to_publish (begin_stop occupied) job occupied.reconnect_generation no_chat ≡ none)
    × ((begin_delivery (begin_stop occupied) 1 new_queue report (λ m. m) (λ m. m)).1 ≡ drops report)
    × (refresh_retry_report (begin_stop occupied) 1 report ≡ drops no_report)
lifecycle-silences_example =
    lifecycle-silences occupied (begin_stop occupied) job job "epoch" "closed" 9 (ann ∷ []) "ann"
      "Ann" true 2 1 no_chat new_queue report (λ m. m) (λ m. m) (inr (inl refl))
      (unfold new_manager in refl)

abbrev round : Round
round = record { waiting = λ m. m; joined = true; joining = λ m. m; view = no_source; now = 9 }

-- The rejoin of generation 0 ends after the job was started anew under generation 1.
rejoined-stops_foreign_queue_example :
    let u = rejoined alone job 0 round in
    (u.worker_retry ≡ some (1, Retry.stop new_queue))
    × (u.current ≡ alone.current)
    × (u.reconnect_generation ≡ alone.reconnect_generation)
    × ((enqueue_retry u report 9).1 ≡ false)
rejoined-stops_foreign_queue_example =
    rejoined-stops_foreign_queue alone job 0 1 new_queue round report 9 (unfold new_manager in refl)
      refl
