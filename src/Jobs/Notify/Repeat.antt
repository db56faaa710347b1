-- ===== src/Jobs/Notify/Repeat.antt =====
-- What a notification that is asked for again finds (`NotifyYouTubeLive` in
-- internal/jobs/notification.go).
use autostream_discord_bot.Base.{
  ℕ, ◌<◌, ◌-◌, String, true, false, ◌≡◌, ◌≢◌, refl, ap, ◌∙◌, Option, none, some, List, arith, ◌==◌,
  length, eq_iff, trim, is_empty, lookup, insert, lookup-insert_self, lookup-delete_self,
}
use autostream_discord_bot.Jobs.{Manager, Receipt}
use autostream_discord_bot.Jobs.Notify.{
  Sent, not_sent, SendError, Begun, refused, joins, sends, notified, failed, begin_notify,
  same_event, reserve, find_or_reserve, end_notify, complete, joined, ending, validate_state, prune,
  payload, event_id_conflict, max_receipts, receipt_ttl, notify_youtube_live, go_on, Answer,
}
use autostream_discord_bot.Jobs.Notify.Receipts.{prune-kept, prune-absent, length-prune-le}

-- The receipt that a call makes, before and after its message is sent.
abbrev pub fresh : ℕ → String → String → Receipt
fresh id stream digest = record {
  id = id;
  stream_id = stream;
  payload_hash = digest;
  message_id = "";
  completed_at = 0;
}

abbrev pub done_receipt : ℕ → String → String → String → ℕ → Receipt
done_receipt id stream digest message at = record (fresh id stream digest) {
  message_id = message;
  completed_at = at;
}

pub complete-found :
    (key : String) (id at : ℕ) (message : String) (receipts : List (String × Receipt)) (r : Receipt)
    → lookup key receipts ≡ some r
    → r.id ≡ id
    → complete key id message at receipts
      ≡ insert key (record r { message_id = message; completed_at = at }) receipts
unfolding complete
complete-found key id at message receipts r found same = rw (found, complete) (ground arith)

pub lookup-complete :
    (key : String) (id at : ℕ) (message : String) (receipts : List (String × Receipt)) (r : Receipt)
    → lookup key receipts ≡ some r
    → r.id ≡ id
    → lookup key (complete key id message at receipts)
      ≡ some (record r { message_id = message; completed_at = at })
lookup-complete key id at message receipts r found same =
    ap (lookup key) (complete-found key id at message receipts r found same)
    ∙ lookup-insert_self key _ receipts

begin-finds :
    (hash : String → String) (m : Manager) (stream event channel url : String) (now : ℕ)
    (r : Receipt)
    → validate_state m stream channel ≡ none
    → lookup (hash event) (prune now m.receipts) ≡ some r
    → begin_notify hash m stream event channel url now
      ≡ (record m { receipts = prune now m.receipts }, same_event hash r stream channel url)
unfolding begin_notify find_or_reserve
begin-finds hash m stream event channel url now r valid found =
    rw (valid, found, begin_notify, find_or_reserve) refl

same_event-joins :
    (hash : String → String) (r : Receipt) (stream channel url : String)
    → r.stream_id ≡ stream
    → r.payload_hash ≡ hash (payload stream channel url)
    → same_event hash r stream channel url ≡ joins r
unfolding same_event
same_event-joins hash r stream channel url s p =
    ground
      (arith, eq_iff r.stream_id stream, eq_iff r.payload_hash (hash (payload stream channel url)))

same_event-conflict :
    (hash : String → String) (r : Receipt) (stream channel url : String)
    → r.payload_hash ≢ hash (payload stream channel url)
    → same_event hash r stream channel url ≡ refused event_id_conflict
unfolding same_event
same_event-conflict hash r stream channel url p =
    ground (arith, eq_iff r.payload_hash (hash (payload stream channel url)))

-- A call that found no receipt and had its message sent: the same event is joined, while its
-- receipt is younger than 24 hours and fewer than 2048 receipts are kept.
module _ (hash : String → String) (m : Manager) (stream event channel url message : String)
    (id at : ℕ)
    (kept : lookup (hash event) m.receipts
      ≡ some (done_receipt id stream (hash (payload stream channel url)) message at))
    (few : length m.receipts < max_receipts) (now : ℕ) (young : now - at < receipt_ttl) where
  still :
      lookup (hash event) (prune now m.receipts)
      ≡ some (done_receipt id stream (hash (payload stream channel url)) message at)
  still = prune-kept now m.receipts (hash event) _ few kept (ground arith)

  begin-joins :
      validate_state m stream channel ≡ none
      → begin_notify hash m stream event channel url now ≡ (
        record m { receipts = prune now m.receipts },
        joins (done_receipt id stream (hash (payload stream channel url)) message at),
      )
  begin-joins valid =
      begin-finds hash m stream event channel url now _ valid still
      ∙ ap (λ b. (record m { receipts = prune now m.receipts }, b))
          (same_event-joins hash _ stream channel url refl refl)

  begin-conflicts :
      (channel' url' : String)
      → validate_state m stream channel' ≡ none
      → hash (payload stream channel url) ≢ hash (payload stream channel' url')
      → (begin_notify hash m stream event channel' url' now).1 ≡ refused event_id_conflict
  begin-conflicts channel' url' valid other =
      ap (λ (p : Manager × Begun). p.1)
        (begin-finds hash m stream event channel' url' now _ valid still)
      ∙ same_event-conflict hash _ stream channel' url' other

notify-goes_on :
    (hash : String → String) (client : Option (String → String → Sent)) (m : Manager)
    (stream event channel url : String) (now : ℕ) (later : Option Sent) (others : Manager → Manager)
    (done : ℕ)
    → is_empty (trim stream) ≡ false
    → is_empty (trim event) ≡ false
    → is_empty (trim url) ≡ false
    → notify_youtube_live hash client m stream event channel url now later others done
      ≡ go_on hash client
          (begin_notify hash m (trim stream) (trim event) (trim channel) (trim url) now)
          (trim channel)
          (trim url)
          later
          others
          done
unfolding notify_youtube_live
notify-goes_on hash client m stream event channel url now later others done s e u =
    rw (s, e, u) refl

-- The same event and payload, while the completed receipt is there.
pub found-repeats :
    (hash : String → String) (client : Option (String → String → Sent)) (w : Manager)
    (stream event channel url message : String) (id at now : ℕ) (later : Option Sent)
    (others : Manager → Manager) (done : ℕ)
    → is_empty (trim stream) ≡ false
    → is_empty (trim event) ≡ false
    → is_empty (trim url) ≡ false
    → lookup (hash (trim event)) w.receipts
      ≡ some (
          done_receipt id
            (trim stream)
            (hash (payload (trim stream) (trim channel) (trim url)))
            message
            at)
    → (at == 0) ≡ false
    → length w.receipts < max_receipts
    → now - at < receipt_ttl
    → validate_state w (trim stream) (trim channel) ≡ none
    → notify_youtube_live hash client w stream event channel url now later others done
      ≡ (record w { receipts = prune now w.receipts }, notified message true)
unfolding go_on joined ending
found-repeats hash client w stream event channel url message id at now later others done s e u kept
      moved few young valid =
    notify-goes_on hash client w stream event channel url now later others done s e u
    ∙ ap (λ b. go_on hash client b (trim channel) (trim url) later others done)
        (begin-joins hash w (trim stream) (trim event) (trim channel) (trim url) message id at kept
          few now young valid)
    ∙ rw moved refl

go_on-refused :
    (hash : String → String) (client : Option (String → String → Sent)) (b : Manager × Begun)
    (channel url : String) (later : Option Sent) (others : Manager → Manager) (done : ℕ)
    → b.1 ≡ refused event_id_conflict
    → (go_on hash client b channel url later others done).1 ≡ failed event_id_conflict
unfolding go_on
go_on-refused hash client (m, b) channel url later others done h = rw h refl

-- Another payload, while the completed receipt of the event is there.
pub found-conflicts :
    (hash : String → String) (client : Option (String → String → Sent)) (w : Manager)
    (stream event channel url channel' url' message : String) (id at now : ℕ) (later : Option Sent)
    (others : Manager → Manager) (done : ℕ)
    → is_empty (trim stream) ≡ false
    → is_empty (trim event) ≡ false
    → is_empty (trim url') ≡ false
    → lookup (hash (trim event)) w.receipts
      ≡ some (done_receipt id (trim stream) (hash (payload (trim stream) channel url)) message at)
    → length w.receipts < max_receipts
    → now - at < receipt_ttl
    → validate_state w (trim stream) (trim channel') ≡ none
    → hash (payload (trim stream) channel url)
      ≢ hash (payload (trim stream) (trim channel') (trim url'))
    → (notify_youtube_live hash client w stream event channel' url' now later others done).1
      ≡ failed event_id_conflict
found-conflicts hash client w stream event channel url channel' url' message id at now later others
      done s e u kept few young valid other =
    ap (λ (p : Manager × Answer). p.1)
      (notify-goes_on hash client w stream event channel' url' now later others done s e u)
    ∙ go_on-refused hash client
        (begin_notify hash w (trim stream) (trim event) (trim channel') (trim url') now)
        (trim channel') (trim url') later others done
        (begin-conflicts hash w (trim stream) (trim event) channel url message id at kept few now
          young (trim channel') (trim url') valid other)

reserve-sends :
    (hash : String → String) (m : Manager) (stream event channel url : String)
    → length m.receipts < max_receipts
    → (reserve hash m stream event channel url).1 ≡ sends (hash event) m.next_id
unfolding reserve
reserve-sends hash m stream event channel url room = ground arith

begin-sends :
    (hash : String → String) (m : Manager) (stream event channel url : String) (now : ℕ)
    → validate_state m stream channel ≡ none
    → lookup (hash event) (prune now m.receipts) ≡ none
    → begin_notify hash m stream event channel url now
      ≡ reserve hash (record m { receipts = prune now m.receipts }) stream event channel url
unfolding begin_notify find_or_reserve
begin-sends hash m stream event channel url now valid absent =
    rw (valid, absent, begin_notify, find_or_reserve) refl

-- A message that was not sent leaves no receipt: the same event is sent again.
notify-retries :
    (hash : String → String) (o w : Manager) (stream event channel url : String) (id at now : ℕ)
    (e : SendError)
    → w.receipts ≡ (end_notify o (hash event) id (not_sent e) at).0.receipts
    → length w.receipts < max_receipts
    → validate_state w stream channel ≡ none
    → (begin_notify hash w stream event channel url now).1 ≡ sends (hash event) w.next_id
unfolding end_notify
notify-retries hash o w stream event channel url id at now e after few valid =
    ap (λ (p : Manager × Begun). p.1)
      (begin-sends hash w stream event channel url now valid (
        prune-absent now w.receipts (hash event)
          (ap (lookup (hash event)) after ∙ lookup-delete_self (hash event) o.receipts)))
    ∙ reserve-sends hash (record w { receipts = prune now w.receipts }) stream event channel url
        (omega (arith, few, length-prune-le now w.receipts))
