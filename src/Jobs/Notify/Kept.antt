-- ===== src/Jobs/Notify/Kept.antt =====
-- The receipt of a message that was sent, while other notifications begin and end
-- (internal/jobs/notification.go).
use autostream_discord_bot.Base.{
  ℕ, suc, ◌+◌, ◌<◌, ◌≤◌, ◌-◌, String, true, false, ◌≡◌, ◌≢◌, refl, ap, ◌∙◌, Option, none, some,
  List, [], ◌∷◌, arith, if_case, leb, ◌==◌, length, lookup, delete, is_empty, str_eq, eq_iff, trim,
  Option-cases, inl, inr, lookup-insert, lookup-delete, lookup-delete_self, length-insert,
  length-delete-le,
}
use autostream_discord_bot.Jobs.{Manager, Receipt}
use autostream_discord_bot.Jobs.Notify.{
  Sent, sent, not_sent, Begun, begin_notify, find_or_reserve, reserve, end_notify, complete,
  validate_state, prune, payload, max_receipts, receipt_ttl, notify_youtube_live, notified, failed,
  event_id_conflict,
}
use autostream_discord_bot.Jobs.Notify.Receipts.{prune-kept, length-prune-le}
use autostream_discord_bot.Jobs.Notify.Repeat.{
  fresh, done_receipt, complete-found, lookup-complete, found-repeats, found-conflicts,
}
use autostream_discord_bot.Jobs.Notify.Schedule.{
  Notifier, Section, begins, ends, moves, take_off, land, enter, run, same_event-lands,
}

-- A call that begins does so less than 24 hours after this time.
abbrev pub IsYoung : ℕ → Section → Type 0
IsYoung at (begins stream event channel url now) = now - at < receipt_ttl
IsYoung at _ = Unit

abbrev pub AllYoung : ℕ → List Section → Type 0
AllYoung at [] = Unit
AllYoung at (a ∷ actions) = IsYoung at a × AllYoung at actions

-- The receipt of the key is there, no call sends under the key, and there are at most so many.
abbrev Holds : String → Receipt → ℕ → List (String × Receipt) → List (String × ℕ) → Type 0
Holds key r n receipts flights =
    (lookup key receipts ≡ some r) × (lookup key flights ≡ none) × (length receipts ≤ n)

module _ (hash : String → String) (key : String) (r : Receipt) (n : ℕ) where
  find_or_reserve-Holds :
      (m : Manager) (flights : List (String × ℕ)) (found : Option Receipt)
      (stream event channel url : String)
      → lookup (hash event) m.receipts ≡ found
      → Holds key r n m.receipts flights
      → let p = find_or_reserve hash m found stream event channel url in
        Holds key r (suc n) p.0.receipts (take_off p.1 flights)
  unfolding find_or_reserve reserve
  find_or_reserve-Holds m flights (some x) stream event channel url e (kept, free, few) = (
    kept,
    ap (lookup key) (same_event-lands hash x stream channel url flights) ∙ free,
    omega (arith, few),
  )
  find_or_reserve-Holds m flights none stream event channel url e (kept, free, few) =
      if_case (λ (p : Manager × Begun). Holds key r (suc n) p.0.receipts (take_off p.1 flights))
        (leb max_receipts (length m.receipts)) (λ full. (kept, free, omega (arith, few)))
        λ room. (
          lookup-insert (hash event) key _ m.receipts ∙ rw other kept,
          unfold lookup in rw other free,
          ground (arith, length-insert (hash event) (new_receipt) m.receipts, few),
        )
    where
      new_receipt : Receipt
      new_receipt = record {
        id = m.next_id;
        stream_id = stream;
        payload_hash = hash (payload stream channel url);
        message_id = "";
        completed_at = 0;
      }

      other : str_eq (hash event) key ≡ false
      other = ground (arith, eq_iff (hash event) key, e, kept)

  begin-Holds :
      (m : Manager) (flights : List (String × ℕ)) (stream event channel url : String) (now : ℕ)
      → (r.completed_at == 0) ≡ false
      → now - r.completed_at < receipt_ttl
      → n < max_receipts
      → Holds key r n m.receipts flights
      → let p = begin_notify hash m stream event channel url now in
        Holds key r (suc n) p.0.receipts (take_off p.1 flights)
  unfolding begin_notify
  begin-Holds m flights stream event channel url now completed young room (kept, free, few) =
      elim (Option-cases (validate_state m stream channel)) [
        | inl valid ↦
            rw (valid, begin_notify)
              (find_or_reserve-Holds (record m { receipts = prune now m.receipts }) flights
                (lookup (hash event) (prune now m.receipts)) stream event channel url refl
                (
                  prune-kept now m.receipts key r (omega (arith, few, room)) kept (ground arith),
                  free,
                  omega (arith, few, length-prune-le now m.receipts),
                ))
        | inr (e, bad) ↦ rw (bad, begin_notify) (kept, free, omega (arith, few))
      ]

  complete-other :
      (k message : String) (id now : ℕ) (receipts : List (String × Receipt))
      → str_eq k key ≡ false
      → lookup key receipts ≡ some r
      → length receipts ≤ n
      → (lookup key (complete k id message now receipts) ≡ some r)
        × (length (complete k id message now receipts) ≤ suc n)
  unfolding complete
  complete-other k message id now receipts other kept few =
      elim (Option-cases (lookup k receipts)) [
        | inl absent ↦ rw (absent, complete) (kept, omega (arith, few))
        | inr (x, found) ↦
            let done = record x { message_id = message; completed_at = now } in
            rw (found, complete)
              (if_case
                (λ (m : List (String × Receipt)). (lookup key m ≡ some r) × (length m ≤ suc n))
                (x.id == id)
                (λ _. (
                  lookup-insert k key done receipts ∙ rw other kept,
                  ground (arith, length-insert k done receipts, few),
                ))
                (λ _. (kept, omega (arith, few))))
      ]

  land-Holds :
      (s : Notifier) (k : String) (flight : Option ℕ) (result : Sent) (now : ℕ)
      → lookup k s.flights ≡ flight
      → Holds key r n s.manager.receipts s.flights
      → Holds key r
          (suc n)
          (land s k flight result now).manager.receipts
          (land s k flight result now).flights
  unfolding land end_notify
  land-Holds s k none result now e (kept, free, few) = (kept, free, omega (arith, few))
  land-Holds s k (some id) result now e (kept, free, few) = landed result
    where
      other : str_eq k key ≡ false
      other = ground (arith, eq_iff k key, e, free)

      gone : lookup key (delete k s.flights) ≡ none
      gone = lookup-delete k key s.flights ∙ rw other free

      landed :
          (result : Sent)
          → Holds key r
              (suc n)
              (end_notify s.manager k id result now).0.receipts
              (delete k s.flights)
      landed (not_sent x) = (
        lookup-delete k key s.manager.receipts ∙ rw other kept,
        gone,
        omega (arith, few, length-delete-le k s.manager.receipts),
      )
      landed (sent message) =
          let (still, most) = complete-other k message id now s.manager.receipts other kept few in
          (still, gone, most)

  enter-Holds :
      (s : Notifier) (a : Section)
      → (r.completed_at == 0) ≡ false
      → IsYoung r.completed_at a
      → n < max_receipts
      → Holds key r n s.manager.receipts s.flights
      → Holds key r (suc n) (enter hash s a).manager.receipts (enter hash s a).flights
  unfolding enter
  enter-Holds s (begins stream event channel url now) completed young room v =
      begin-Holds s.manager s.flights stream event channel url now completed young room v
  enter-Holds s (ends k result now) completed young room v =
      land-Holds s k (lookup k s.flights) result now refl v
  enter-Holds s (moves m) completed young room (kept, free, few) = (kept, free, omega (arith, few))

run-Holds :
    (hash : String → String) (key : String) (r : Receipt) (n : ℕ) (s : Notifier)
    (actions : List Section)
    → (r.completed_at == 0) ≡ false
    → AllYoung r.completed_at actions
    → n + length actions < max_receipts
    → Holds key r n s.manager.receipts s.flights
    → (lookup key (run hash s actions).manager.receipts ≡ some r)
      × (length (run hash s actions).manager.receipts < max_receipts)
unfolding run
run-Holds hash key r n s [] completed young room (kept, free, few) =
    (kept, omega (arith, few, room))
run-Holds hash key r n s (a ∷ actions) completed young room v =
    run-Holds hash key r (suc n) (enter hash s a) actions completed young.1 (omega (arith, room))
      (enter-Holds hash key r n s a completed young.0 (omega (arith, room)) v)

-- The manager after a message was sent, and after other sections.
abbrev pub sent_then : (String → String) → Notifier → String → String → ℕ → List Section → Manager
sent_then hash s key message at actions =
    (run hash (enter hash s (ends key (sent message) at)) actions).manager

landed-Holds :
    (s : Notifier) (key stream digest message : String) (id at : ℕ)
    → lookup key s.manager.receipts ≡ some (fresh id stream digest)
    → Holds key
        (done_receipt id stream digest message at)
        (length s.manager.receipts)
        (land s key (some id) (sent message) at).manager.receipts
        (land s key (some id) (sent message) at).flights
unfolding land end_notify
landed-Holds s key stream digest message id at waits = (
  lookup-complete key id at message s.manager.receipts _ waits refl,
  lookup-delete_self key s.flights,
  rw (complete-found key id at message s.manager.receipts _ waits refl) (
      ground (
        arith,
        length-insert key (done_receipt id stream digest message at) s.manager.receipts,
        waits,
      )),
)

sent_then-kept :
    (hash : String → String) (s : Notifier) (key stream digest message : String) (id at : ℕ)
    (actions : List Section)
    → lookup key s.flights ≡ some id
    → lookup key s.manager.receipts ≡ some (fresh id stream digest)
    → (at == 0) ≡ false
    → AllYoung at actions
    → length s.manager.receipts + length actions < max_receipts
    → (lookup key (sent_then hash s key message at actions).receipts
        ≡ some (done_receipt id stream digest message at))
      × (length (sent_then hash s key message at actions).receipts < max_receipts)
sent_then-kept hash s key stream digest message id at actions flight waits completed young room =
    run-Holds hash key (done_receipt id stream digest message at) (length s.manager.receipts)
      (enter hash s (ends key (sent message) at)) actions completed young room
      (unfold enter in rw flight (landed-Holds s key stream digest message id at waits))

-- Once the call that holds the receipt of an event has sent its message, a notification of the
-- same event and payload sends nothing and answers with the message of the first one, as already
-- sent, whatever other notifications began and ended and whatever else changed meanwhile, as long
-- as it and they began less than 24 hours after the message was sent, the receipts at first and
-- these sections together are fewer than 2048, and the state allows it.
pub notify-repeats :
    (hash : String → String) (client : Option (String → String → Sent)) (s : Notifier)
    (stream event channel url message : String) (id at : ℕ) (actions : List Section) (now : ℕ)
    (later : Option Sent) (others : Manager → Manager) (done : ℕ)
    → is_empty (trim stream) ≡ false
    → is_empty (trim event) ≡ false
    → is_empty (trim url) ≡ false
    → lookup (hash (trim event)) s.flights ≡ some id
    → lookup (hash (trim event)) s.manager.receipts
      ≡ some (fresh id (trim stream) (hash (payload (trim stream) (trim channel) (trim url))))
    → (at == 0) ≡ false
    → AllYoung at actions
    → length s.manager.receipts + length actions < max_receipts
    → now - at < receipt_ttl
    → validate_state
        (sent_then hash s (hash (trim event)) message at actions)
        (trim stream)
        (trim channel)
      ≡ none
    → let w = sent_then hash s (hash (trim event)) message at actions in
      notify_youtube_live hash client w stream event channel url now later others done
      ≡ (record w { receipts = prune now w.receipts }, notified message true)
notify-repeats hash client s stream event channel url message id at actions now later others done
      named event_named url_named flight waits completed young room soon valid =
    let (kept, few) =
      sent_then-kept hash s (hash (trim event)) (trim stream)
        (hash (payload (trim stream) (trim channel) (trim url))) message id at actions flight waits
        completed young room in
    found-repeats hash client (sent_then hash s (hash (trim event)) message at actions) stream event
      channel url message id at now later others done named event_named url_named kept completed few
      soon valid

-- Once the call that holds the receipt of an event has sent its message, a notification of the
-- same event and stream with a payload of another hash is refused as a conflict, whatever other
-- notifications began and ended and whatever else changed meanwhile, as long as it and they began
-- less than 24 hours after the message was sent, the receipts at first and these sections together
-- are fewer than 2048, and the state allows it.
pub notify-conflicts :
    (hash : String → String) (client : Option (String → String → Sent)) (s : Notifier)
    (stream event channel url channel' url' message : String) (id at : ℕ) (actions : List Section)
    (now : ℕ) (later : Option Sent) (others : Manager → Manager) (done : ℕ)
    → is_empty (trim stream) ≡ false
    → is_empty (trim event) ≡ false
    → is_empty (trim url') ≡ false
    → lookup (hash (trim event)) s.flights ≡ some id
    → lookup (hash (trim event)) s.manager.receipts
      ≡ some (fresh id (trim stream) (hash (payload (trim stream) channel url)))
    → (at == 0) ≡ false
    → AllYoung at actions
    → length s.manager.receipts + length actions < max_receipts
    → now - at < receipt_ttl
    → validate_state
        (sent_then hash s (hash (trim event)) message at actions)
        (trim stream)
        (trim channel')
      ≡ none
    → hash (payload (trim stream) channel url)
      ≢ hash (payload (trim stream) (trim channel') (trim url'))
    → (notify_youtube_live hash client
        (sent_then hash s (hash (trim event)) message at actions)
        stream
        event
        channel'
        url'
        now
        later
        others
        done).1
      ≡ failed event_id_conflict
notify-conflicts hash client s stream event channel url channel' url' message id at actions now
      later others done named event_named url_named flight waits completed young room soon valid
      other =
    let (kept, few) =
      sent_then-kept hash s (hash (trim event)) (trim stream)
        (hash (payload (trim stream) channel url)) message id at actions flight waits completed
        young room in
    found-conflicts hash client (sent_then hash s (hash (trim event)) message at actions) stream
      event channel url channel' url' message id at now later others done named event_named
      url_named kept few soon valid other
