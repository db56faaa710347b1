-- ===== src/Forward/Queue.antt =====
-- The bounded queue of batches to one target (internal/audioforward/queue.go), and its consumer as
-- a sequence of steps. A batch is a value here, so the copy that `Enqueue` makes is the batch.
pub mod Order
use autostream_discord_bot.Base.{
  ℕ, String, Bool, true, false, Option, none, some, List, [], ◌∷◌, ◌++◌, if◌then◌else◌, ltb, length,
  is_nil,
}
use autostream_discord_bot.Forward.{Batch}

pub record BatchQueue : Type 0 where
  pub capacity : ℕ
  pub batches : List Batch

unfoldable pub new_batch_queue : ℕ → BatchQueue
new_batch_queue capacity = record {
  capacity = if ltb capacity 1 then 1 else capacity;
  batches = [];
}

-- `Enqueue`: whether the batch was taken.
unfoldable pub enqueue_batch : BatchQueue → Batch → BatchQueue × Bool
enqueue_batch q batch =
    if is_nil batch
    then (q, false)
    else if ltb (length q.batches) q.capacity
    then (record q { batches = q.batches ++ (batch ∷ []) }, true)
    else (q, false)

-- The queue with the goroutine of `Run`: the batches that `send` was called with, the sizes and
-- results that were reported, whether a call is under way, and the batch that a cancelled `Run`
-- took and gave up.
pub record Line : Type 0 where
  pub queue : BatchQueue
  pub sent : List Batch
  pub reports : List (ℕ × Bool)
  pub busy : Option ℕ
  pub cancelled : Bool
  pub given_up : List Batch
  pub ended : Bool

pub data Move : Type 0 where
  offers : Batch → Move
  -- The `select` of `Run` takes the next batch.
  takes : Move
  -- The `select` of `Run` sees that the context is done.
  sees_done : Move
  -- `send` returns; the argument tells whether without error.
  returns : Bool → Move
  cancels : Move

unfoldable pub offer : Line → BatchQueue × Bool → Line
offer l (q, taken) = record l { queue = q }

-- `send` is not called with a batch that is taken after the context was cancelled.
unfoldable pub take_batch : Line → List Batch → Line
take_batch l [] = l
take_batch l (b ∷ rest) =
    let left = record l { queue = record l.queue { batches = rest } } in
    if l.cancelled
    then record left { given_up = b ∷ []; ended = true }
    else record left { sent = l.sent ++ (b ∷ []); busy = some (length b) }

unfoldable pub take_next_batch : Line → Option ℕ → Line
take_next_batch l (some n) = l
take_next_batch l none = if l.ended then l else take_batch l l.queue.batches

unfoldable pub end_send : Line → Option ℕ → Bool → Line
end_send l none ok = l
end_send l (some n) ok =
    if l.cancelled
    then record l { busy = none; ended = true }
    else record l { busy = none; reports = (n, ok) ∷ l.reports }

unfoldable pub end_run : Line → Option ℕ → Line
end_run l (some n) = l
end_run l none = if l.cancelled then record l { ended = true } else l

unfoldable pub move : Line → Move → Line
unfolding offer take_next_batch end_send end_run
move l (offers b) = offer l (enqueue_batch l.queue b)
move l takes = take_next_batch l l.busy
move l sees_done = end_run l l.busy
move l (returns ok) = end_send l l.busy ok
move l cancels = record l { cancelled = true }

unfoldable pub run : Line → List Move → Line
run l [] = l
run l (a ∷ moves) = run (move l a) moves

unfoldable pub new_line : ℕ → Line
new_line capacity = record {
  queue = new_batch_queue capacity;
  sent = [];
  reports = [];
  busy = none;
  cancelled = false;
  given_up = [];
  ended = false;
}
