-- ===== src/Jobs/Notify/Schedule.antt =====
-- Notifications in any interleaving of their critical sections with the rest of the manager
-- (internal/jobs/notification.go): `flights` are the calls that are sending, by key.
use autostream_discord_bot.Base.{
  ℕ, ◌+◌, String, true, false, ◌≡◌, refl, sym, subst, Option, none, some, List, [], ◌∷◌, arith,
  if_case, leb, ◌==◌, length, lookup, delete, Option-cases, inl, inr,
}
use autostream_discord_bot.Jobs.{Manager, Receipt, new_manager}
use autostream_discord_bot.Jobs.Notify.{
  Sent, sent, not_sent, Begun, sends, begin_notify, find_or_reserve, reserve, same_event,
  end_notify, validate_state, prune, max_receipts,
}
use autostream_discord_bot.Jobs.Notify.Invariant.{
  ReceiptsInv, prune-ReceiptsInv, reserve-ReceiptsInv, complete-ReceiptsInv, delete-ReceiptsInv,
  no_receipts-ReceiptsInv,
}

pub record Notifier : Type 0 where
  pub manager : Manager
  pub flights : List (String × ℕ)

pub data Section : Type 0 where
  -- A call enters: stream, event, channel, URL and time.
  begins : String → String → String → String → ℕ → Section
  -- The call that sends under a key comes back with this result.
  ends : String → Sent → ℕ → Section
  -- Other operations leave this manager, with the receipts as they are.
  moves : Manager → Section

abbrev pub take_off : Begun → List (String × ℕ) → List (String × ℕ)
take_off (sends key id) flights = (key, id) ∷ flights
take_off _ flights = flights

unfoldable pub land : Notifier → String → Option ℕ → Sent → ℕ → Notifier
land s key none result now = s
land s key (some id) result now = record {
  manager = (end_notify s.manager key id result now).0;
  flights = delete key s.flights;
}

module _ (hash : String → String) where
  unfoldable pub enter : Notifier → Section → Notifier
  unfolding land
  enter s (begins stream event channel url now) =
      let (m, b) = begin_notify hash s.manager stream event channel url now in
      record { manager = m; flights = take_off b s.flights }
  enter s (ends key result now) = land s key (lookup key s.flights) result now
  enter s (moves m) = record s {
    manager = record m { receipts = s.manager.receipts; next_id = s.manager.next_id + m.next_id };
  }

  unfoldable pub run : Notifier → List Section → Notifier
  run s [] = s
  run s (a ∷ actions) = run (enter s a) actions

unfoldable pub start : Notifier
start = record { manager = new_manager true; flights = [] }

-- A time of Go that is read from the clock is not the zero time.
abbrev pub IsTimed : Section → Type 0
IsTimed (ends key result now) = (now == 0) ≡ false
IsTimed _ = Unit

abbrev pub AllTimed : List Section → Type 0
AllTimed [] = Unit
AllTimed (a ∷ actions) = IsTimed a × AllTimed actions

end-ReceiptsInv :
    (s : Notifier) (key : String) (flight : Option ℕ) (result : Sent) (now : ℕ)
    → lookup key s.flights ≡ flight
    → (now == 0) ≡ false
    → ReceiptsInv s.manager.receipts s.flights
    → ReceiptsInv
        (land s key flight result now).manager.receipts
        (land s key flight result now).flights
unfolding land end_notify
end-ReceiptsInv s key none result now e timed v = v
end-ReceiptsInv s key (some id) (not_sent x) now e timed v =
    delete-ReceiptsInv s.manager.receipts s.flights key v
end-ReceiptsInv s key (some id) (sent message) now e timed v =
    complete-ReceiptsInv s.manager.receipts s.flights key message id now e timed v

pub same_event-lands :
    (hash : String → String) (r : Receipt) (stream channel url : String)
    (flights : List (String × ℕ))
    → take_off (same_event hash r stream channel url) flights ≡ flights
unfolding same_event
same_event-lands hash r stream channel url flights = ground arith

abbrev Taken : List (String × ℕ) → Manager × Begun → Type 0
Taken flights p = ReceiptsInv p.0.receipts (take_off p.1 flights)

find_or_reserve-ReceiptsInv :
    (hash : String → String) (m : Manager) (flights : List (String × ℕ)) (found : Option Receipt)
    (stream event channel url : String)
    → lookup (hash event) m.receipts ≡ found
    → ReceiptsInv m.receipts flights
    → Taken flights (find_or_reserve hash m found stream event channel url)
unfolding find_or_reserve reserve
find_or_reserve-ReceiptsInv hash m flights (some r) stream event channel url e v =
    subst (ReceiptsInv m.receipts) (sym (same_event-lands hash r stream channel url flights)) v
find_or_reserve-ReceiptsInv hash m flights none stream event channel url e v =
    if_case (Taken flights) (leb max_receipts (length m.receipts)) (λ full. v)
      λ room. reserve-ReceiptsInv m.receipts flights (hash event) _ e (ground arith) refl v

begin-ReceiptsInv :
    (hash : String → String) (m : Manager) (flights : List (String × ℕ))
    (stream event channel url : String) (now : ℕ)
    → ReceiptsInv m.receipts flights
    → Taken flights (begin_notify hash m stream event channel url now)
unfolding begin_notify
begin-ReceiptsInv hash m flights stream event channel url now v =
    elim (Option-cases (validate_state m stream channel)) [
      | inl valid ↦
          rw (valid, begin_notify)
            (find_or_reserve-ReceiptsInv hash (record m { receipts = prune now m.receipts }) flights
              (lookup (hash event) (prune now m.receipts)) stream event channel url refl
              (prune-ReceiptsInv now m.receipts flights v))
      | inr (e, bad) ↦ rw (bad, begin_notify) v
    ]

enter-ReceiptsInv :
    (hash : String → String) (s : Notifier) (a : Section)
    → IsTimed a
    → ReceiptsInv s.manager.receipts s.flights
    → ReceiptsInv (enter hash s a).manager.receipts (enter hash s a).flights
unfolding enter
enter-ReceiptsInv hash s (begins stream event channel url now) timed v =
    begin-ReceiptsInv hash s.manager s.flights stream event channel url now v
enter-ReceiptsInv hash s (ends key result now) timed v =
    end-ReceiptsInv s key (lookup key s.flights) result now refl timed v
enter-ReceiptsInv hash s (moves m) timed v = v

run-ReceiptsInv :
    (hash : String → String) (s : Notifier) (actions : List Section)
    → AllTimed actions
    → ReceiptsInv s.manager.receipts s.flights
    → ReceiptsInv (run hash s actions).manager.receipts (run hash s actions).flights
unfolding run
run-ReceiptsInv hash s [] timed v = v
run-ReceiptsInv hash s (a ∷ actions) timed v =
    run-ReceiptsInv hash (enter hash s a) actions timed.1 (enter-ReceiptsInv hash s a timed.0 v)

-- After any sequence of begun and ended notifications, at times that are not zero, there are at
-- most 2048 receipts, and they are a map; a call that sends has the receipt of its event to
-- itself, and a receipt that waits belongs to a call that still sends.
pub run-start-ReceiptsInv :
    (hash : String → String) (actions : List Section)
    → AllTimed actions
    → ReceiptsInv (run hash start actions).manager.receipts (run hash start actions).flights
unfolding start new_manager
run-start-ReceiptsInv hash actions timed =
    run-ReceiptsInv hash start actions timed no_receipts-ReceiptsInv
