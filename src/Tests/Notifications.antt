-- ===== src/Tests/Notifications.antt =====
-- Notifications (internal/jobs/notification.go) on concrete managers, with a hash function that
-- leaves its argument as it is.
use autostream_discord_bot.Base.{
  delete, ◌≤◌, String, true, false, ◌≡◌, refl, none, List, [], ◌∷◌, IsMap, arith, append, trim,
  trim_left, trim_right, lookup, insert, length, str_eq, eq_iff,
}
use autostream_discord_bot.Tests.{job, alone}
use autostream_discord_bot.Jobs.{Manager, Receipt, new_manager}
use autostream_discord_bot.Jobs.Notify.{
  begin_notify, find_or_reserve, reserve, same_event, victim, oldest, failed, notified, sent,
  payload, prune, drop_oldest, victim, end_notify, complete, validate_state, notify_youtube_live,
  event_id_conflict,
}
use autostream_discord_bot.Jobs.Notify.Receipts.{IsSettled, prune-IsSettled}
use autostream_discord_bot.Jobs.Notify.Repeat.{fresh}
use autostream_discord_bot.Jobs.Notify.Kept.{sent_then, notify-repeats, notify-conflicts}
use autostream_discord_bot.Jobs.Notify.Invariant.{ReceiptsInv}
use autostream_discord_bot.Jobs.Notify.Schedule.{
  Notifier, enter, land, Section, begins, ends, moves, run, start, run-start-ReceiptsInv,
}

abbrev plain : String → String
plain s = s

abbrev waiting : Receipt
waiting = fresh 3 "stream" (payload "stream" "text" "url")

-- A manager whose message for the event is under way.
abbrev sending : Manager
sending = record alone {
  current = record job { text_channel_id = "text" };
  receipts = ("event", waiting) ∷ [];
}

-- The call that sends, and another notification that begins and ends after it.
abbrev caller : Notifier
caller = record { manager = sending; flights = ("event", 3) ∷ [] }

abbrev others : List Section
others = begins "stream" "other" "text" "url" 6 ∷ ends "other" (sent "m2") 7 ∷ []

still_valid :
    validate_state (sent_then plain caller "event" "m1" 5 others) (trim "stream") (trim "text")
    ≡ none
unfolding validate_state trim trim_left trim_right new_manager run enter land end_notify complete
    begin_notify find_or_reserve reserve same_event prune drop_oldest victim oldest lookup insert
    delete append
still_valid = refl

notify-repeats_example :
    let w = sent_then plain caller (plain (trim "event")) "m1" 5 others in
    notify_youtube_live plain none w "stream" "event" "text" "url" 9 none (λ m. m) 0
    ≡ (record w { receipts = prune 9 w.receipts }, notified "m1" true)
notify-repeats_example =
    notify-repeats plain none caller "stream" "event" "text" "url" "m1" 3 5 others 9 none (λ m. m) 0
      (unfold trim trim_left trim_right in refl) (unfold trim trim_left trim_right in refl)
      (unfold trim trim_left trim_right in refl) (unfold trim trim_left trim_right lookup in refl)
      (unfold trim trim_left trim_right lookup append in refl) refl (omega arith, (tt, tt))
      (omega arith) (omega arith) (unfold trim trim_left trim_right in still_valid)

payloads_differ :
    str_eq
      (payload (trim "stream") "text" "url")
      (payload (trim "stream") (trim "text") (trim "other"))
    ≡ false
unfolding trim trim_left trim_right append
payloads_differ = refl

other_payload :
    payload (trim "stream") "text" "url" ≡ payload (trim "stream") (trim "text") (trim "other") → ⊥
other_payload h = cc (
  payloads_differ,
  (eq_iff (payload (trim "stream") "text" "url")
        (payload (trim "stream") (trim "text") (trim "other"))).1
      h,
)

notify-conflicts_example :
    (notify_youtube_live plain none
      (sent_then plain caller (plain (trim "event")) "m1" 5 others)
      "stream"
      "event"
      "text"
      "other"
      9
      none
      (λ m. m)
      0).1
    ≡ failed event_id_conflict
notify-conflicts_example =
    notify-conflicts plain none caller "stream" "event" "text" "url" "text" "other" "m1" 3 5 others
      9 none (λ m. m) 0 (unfold trim trim_left trim_right in refl)
      (unfold trim trim_left trim_right in refl) (unfold trim trim_left trim_right in refl)
      (unfold trim trim_left trim_right lookup in refl)
      (unfold trim trim_left trim_right lookup append in refl) refl (omega arith, (tt, tt))
      (omega arith) (omega arith) (unfold trim trim_left trim_right in still_valid)
      λ same. other_payload same

-- The second call joins the first; then the message is sent.
abbrev calls : List Section
calls =
    moves sending
    ∷ begins "stream" "event" "text" "url" 4
    ∷ begins "stream" "event" "text" "url" 5
    ∷ ends "event" (sent "m1") 6
    ∷ []

run-start-ReceiptsInv_example :
    ReceiptsInv (run plain start calls).manager.receipts (run plain start calls).flights
run-start-ReceiptsInv_example = run-start-ReceiptsInv plain calls (tt, (tt, (tt, (refl, tt))))

abbrev two : List (String × Receipt)
two = ("event", waiting) ∷ ("old", record waiting { message_id = "m0"; completed_at = 1 }) ∷ []

prune-IsSettled_example :
    IsMap (prune 90_000_000_000_000 two)
    × (length (prune 90_000_000_000_000 two) ≤ 2)
    × IsSettled (prune 90_000_000_000_000 two)
prune-IsSettled_example =
    prune-IsSettled 90_000_000_000_000 two (unfold lookup in (refl, (refl, tt)))

pruned : prune 90_000_000_000_000 two ≡ ("event", waiting) ∷ []
unfolding prune drop_oldest victim
pruned = refl
