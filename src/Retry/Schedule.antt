-- ===== src/Retry/Schedule.antt =====
-- The queue and its one delivery goroutine as a sequence of critical sections, in any order
-- (`loop` and `deliverWorkerEventRetry` in internal/jobs/event_retry.go): what the manager does to
-- the queue, and the goroutine that takes a report, publishes it with no lock held and settles it.
use autostream_discord_bot.Base.{
  ℕ, suc, ◌<◌, String, Bool, true, false, ◌≡◌, Option, none, some, List, [], ◌∷◌, arith, is_empty,
  lookup, if_case, not, ◌==◌, ◌⊎◌, inl, inr, ◌||◌, leb,
}
use autostream_discord_bot.Retry.Classify.{PublishFault}
use autostream_discord_bot.Retry.{
  Report, Queue, Next, ready, new_queue, stop, enqueue, next, mark_dropped, supersede, max_attempts,
  is_due, answer, no_report, pick,
}
use autostream_discord_bot.Retry.Selection.{pick-found}
use autostream_discord_bot.Retry.Invariant.{
  Inv, settle, enqueue-Inv, supersede-Inv, stop-Inv, mark_dropped-Inv, next-Inv, settle-Inv,
  new_queue-Inv,
}

-- `flight` is the report between `next` and the end of its delivery.
pub record System : Type 0 where
  pub queue : Queue
  pub flight : Option Report

pub data Action : Type 0 where
  enqueues : Report → ℕ → Action
  supersedes : String → Action
  stops : Action
  -- The goroutine takes the next report, if it holds none.
  takes : ℕ → ℕ → Action
  -- The report in flight is no longer current: it is dropped before it is published.
  gives_up : Action
  -- The report in flight was published, with this result.
  settles : Option PublishFault → Bool → ℕ → ℕ → Action

abbrev pub flying : Next → Option Report
flying (ready r) = some r
flying _ = none

unfoldable pub take_next : Queue → Option Report → ℕ → ℕ → System
take_next q none now later = record {
  queue = (next q now later).0;
  flight = flying (next q now later).1;
}
take_next q (some r) now later = record { queue = q; flight = some r }

unfoldable pub end_flight : Queue → Option Report → (Queue → Report → Queue) → System
end_flight q none finish = record { queue = q; flight = none }
end_flight q (some r) finish = record { queue = finish q r; flight = none }

abbrev pub tried : Report → Report
tried r = record r { attempts = suc r.attempts }

unfoldable pub step : System → Action → System
unfolding take_next end_flight
step s (enqueues r now) = record s { queue = (enqueue s.queue r now).0 }
step s (supersedes key) = record s { queue = supersede s.queue key }
step s stops = record s { queue = stop s.queue }
step s (takes now later) = take_next s.queue s.flight now later
step s gives_up = end_flight s.queue s.flight mark_dropped
step s (settles e cancelled now later) =
    end_flight s.queue s.flight λ q r. settle q (tried r) e cancelled now later

unfoldable pub run : System → List Action → System
run s [] = s
run s (a ∷ actions) = run (step s a) actions

unfoldable pub start : System
start = record { queue = new_queue; flight = none }

-- Keys are never empty: they hold the name of the event's kind.
abbrev pub IsNamed : Action → Type 0
IsNamed (enqueues r now) = is_empty r.key ≡ false
IsNamed _ = Unit

abbrev pub AllNamed : List Action → Type 0
AllNamed [] = Unit
AllNamed (a ∷ actions) = IsNamed a × AllNamed actions

-- The report in flight is named, and a try is left to it.
abbrev pub FlightInv : Option Report → Type 0
FlightInv none = Unit
FlightInv (some r) = (is_empty r.key ≡ false) × (r.attempts < max_attempts)

pub record SystemInv (s : System) : Type 0 where
  pub queue_inv : Inv s.queue
  pub flight_inv : FlightInv s.flight

-- What the scan selects has the invariant's bound on its tries.
selected-FlightInv :
    (q : Queue) (now : ℕ) (s : Report)
    → Inv q
    → (s ≡ no_report) ⊎ ((lookup s.key q.pending ≡ some s) × (is_due now s ≡ true))
    → is_empty s.key ≡ false
    → FlightInv (some s)
selected-FlightInv q now s v (inl blank) named = cc
selected-FlightInv q now s v (inr (e, _)) named = (named, (v.entries s.key s e).3)

answer-FlightInv :
    (q : Queue) (now later : ℕ) (p : Report × ℕ)
    → Inv q
    → (p.0 ≡ no_report) ⊎ ((lookup p.0.key q.pending ≡ some p.0) × (is_due now p.0 ≡ true))
    → FlightInv (flying (answer q later p).1)
unfolding answer
answer-FlightInv q now later (s, t) v found =
    if_case (λ (a : Queue × Next). FlightInv (flying a.1)) (not (is_empty s.key))
      (λ named. selected-FlightInv q now s v found (ground arith))
      λ nothing.
        if_case (λ (a : Queue × Next). FlightInv (flying a.1)) (t == 0 || leb t later) (λ never. tt)
          (λ wait. tt)

next-FlightInv : (q : Queue) (now later : ℕ) → Inv q → FlightInv (flying (next q now later).1)
unfolding next
next-FlightInv q now later v = answer-FlightInv q now later (pick now no_report 0 q.pending) v (
    pick-found now no_report 0 q.pending v.is_map
      λ k r e. ((v.entries k r e).0, (v.entries k r e).1))

take_next-SystemInv :
    (q : Queue) (f : Option Report) (now later : ℕ)
    → Inv q
    → FlightInv f
    → SystemInv (take_next q f now later)
unfolding take_next
take_next-SystemInv q none now later v h = record {
  queue_inv = next-Inv q now later v;
  flight_inv = next-FlightInv q now later v;
}
take_next-SystemInv q (some r) now later v h = record { queue_inv = v; flight_inv = h }

end_flight-SystemInv :
    (q : Queue) (f : Option Report) (finish : Queue → Report → Queue)
    → Inv q
    → FlightInv f
    → ((r : Report) → is_empty r.key ≡ false → Inv (finish q r))
    → SystemInv (end_flight q f finish)
unfolding end_flight
end_flight-SystemInv q none finish v h keeps = record { queue_inv = v; flight_inv = tt }
end_flight-SystemInv q (some r) finish v h keeps = record {
  queue_inv = keeps r h.0;
  flight_inv = tt;
}

pub step-SystemInv : (s : System) (a : Action) → IsNamed a → SystemInv s → SystemInv (step s a)
unfolding step
step-SystemInv s (enqueues r now) named v = record {
  queue_inv = enqueue-Inv s.queue r now named v.queue_inv;
  flight_inv = v.flight_inv;
}
step-SystemInv s (supersedes key) named v = record {
  queue_inv = supersede-Inv s.queue key v.queue_inv;
  flight_inv = v.flight_inv;
}
step-SystemInv s stops named v = record {
  queue_inv = stop-Inv s.queue v.queue_inv;
  flight_inv = v.flight_inv;
}
step-SystemInv s (takes now later) named v =
    take_next-SystemInv s.queue s.flight now later v.queue_inv v.flight_inv
step-SystemInv s gives_up named v =
    end_flight-SystemInv s.queue s.flight mark_dropped v.queue_inv v.flight_inv
      λ r h. mark_dropped-Inv s.queue r v.queue_inv
step-SystemInv s (settles e cancelled now later) named v =
    end_flight-SystemInv s.queue s.flight _ v.queue_inv v.flight_inv
      λ r h. settle-Inv s.queue (tried r) e cancelled now later h v.queue_inv

run-SystemInv :
    (s : System) (actions : List Action)
    → AllNamed actions
    → SystemInv s
    → SystemInv (run s actions)
unfolding run
run-SystemInv s [] named v = v
run-SystemInv s (a ∷ actions) named v =
    run-SystemInv (step s a) actions named.1 (step-SystemInv s a named.0 v)

-- After any sequence of enqueues, supersedings, stops and delivery steps of reports with keys that
-- are not empty, the pending reports are a map in which each report stands under its own key, is
-- the latest of that key and has a try left, a stopped queue holds none, and the report in flight
-- has been tried fewer than four times.
pub run-start-SystemInv : (actions : List Action) → AllNamed actions → SystemInv (run start actions)
run-start-SystemInv actions named =
    run-SystemInv start actions named
      (unfold start in record { queue_inv = new_queue-Inv; flight_inv = tt })
