-- ===== src/Forward/Queue/Order.antt =====
-- What the queue promises (internal/audioforward/queue.go): a FIFO. The abstract view of a run is
-- the list of the batches that were taken, in the order of their offers.
use mathlib.Core.List.{append-nil, append_assoc}
use autostream_discord_bot.Base.{
  ℕ, ◌≤◌, Bool, true, false, ◌≡◌, ◌⊎◌, inl, inr, refl, subst, ap, sym, ◌∙◌, Option, none, some,
  List, [], ◌∷◌, ◌++◌, arith, if◌then◌else◌, if_case, ltb, length, length-append, is_nil,
}
use autostream_discord_bot.Forward.{Batch}
use autostream_discord_bot.Forward.Queue.{
  BatchQueue, new_batch_queue, enqueue_batch, Line, Move, offers, takes, sees_done, returns,
  cancels, offer, take_batch, take_next_batch, end_send, end_run, move, run, new_line,
}

-- The FIFO: what an offer adds to it.
unfoldable pub accepts : Line → Move → List Batch
accepts l (offers b) = if (enqueue_batch l.queue b).1 then b ∷ [] else []
accepts l _ = []

unfoldable pub accepted : Line → List Move → List Batch
accepted l [] = []
accepted l (a ∷ moves) = accepts l a ++ accepted (move l a) moves

-- What became of the batches that were taken: sent, given up at the end, or still queued.
abbrev pub placed : Line → List Batch
placed l = l.sent ++ (l.given_up ++ l.queue.batches)

append_regroup :
    (xs ys zs : List Batch) (b : Batch)
    → xs ++ (ys ++ (zs ++ (b ∷ []))) ≡ (xs ++ (ys ++ zs)) ++ (b ∷ [])
append_regroup xs ys zs b = simp append_assoc

abbrev Offered : Line → Batch → BatchQueue × Bool → Type 0
Offered l b r = placed (offer l r) ≡ placed l ++ (if r.1 then b ∷ [] else [])

offer-placed : (l : Line) (b : Batch) → Offered l b (enqueue_batch l.queue b)
unfolding offer enqueue_batch
offer-placed l b =
    if_case (Offered l b) (is_nil b) (λ _. sym (append-nil (placed l)))
      λ _.
        if_case (Offered l b) (ltb (length l.queue.batches) l.queue.capacity)
          (λ _. append_regroup l.sent l.given_up l.queue.batches b) λ _. sym (append-nil (placed l))

-- A batch is given up only when the run has ended.
abbrev pub Open : Line → Type 0
Open l = (l.ended ≡ true) ⊎ (l.given_up ≡ [])

take-placed :
    (l : Line) (bs : List Batch)
    → l.queue.batches ≡ bs
    → l.given_up ≡ []
    → (placed (take_batch l bs) ≡ placed l) × Open (take_batch l bs)
unfolding take_batch
take-placed l [] e lost = (refl, inr lost)
take-placed l (b ∷ bs) e lost =
    if_case (λ (n : Line). (placed n ≡ placed l) × Open n) l.cancelled
      (λ _. (rw (e, lost) refl, inl refl))
      λ _. (rw (e, lost) (append_assoc l.sent (b ∷ []) bs), inr lost)

-- What a step does to the batches that were taken.
abbrev Steps : Line → List Batch → Line → Type 0
Steps l new n = (placed n ≡ placed l ++ new) × Open n

stays-Steps : (l n : Line) → placed n ≡ placed l → Open n → Steps l [] n
stays-Steps l n same open_still = (same ∙ sym (append-nil (placed l)), open_still)

take_next_batch-Steps : (l : Line) (o : Option ℕ) → Open l → Steps l [] (take_next_batch l o)
unfolding take_next_batch
take_next_batch-Steps l (some n) v = stays-Steps l l refl v
take_next_batch-Steps l none v =
    if_case (Steps l []) l.ended (λ _. stays-Steps l l refl v)
      λ running.
        let (same, open_still) = take-placed l l.queue.batches refl (not_lost running v) in
        stays-Steps l (take_batch l l.queue.batches) same open_still
  where
    not_lost : l.ended ≡ false → Open l → l.given_up ≡ []
    not_lost running (inl over) = cc (running, over)
    not_lost running (inr lost) = lost

end_send-Steps : (l : Line) (o : Option ℕ) (ok : Bool) → Open l → Steps l [] (end_send l o ok)
unfolding end_send
end_send-Steps l none ok v = stays-Steps l l refl v
end_send-Steps l (some n) ok v =
    if_case (Steps l []) l.cancelled (λ _. (sym (append-nil (placed l)), inl refl))
      λ _. (sym (append-nil (placed l)), v)

end_run-Steps : (l : Line) (o : Option ℕ) → Open l → Steps l [] (end_run l o)
unfolding end_run
end_run-Steps l (some n) v = stays-Steps l l refl v
end_run-Steps l none v =
    if_case (Steps l []) l.cancelled (λ _. (sym (append-nil (placed l)), inl refl))
      λ _. stays-Steps l l refl v

offer-Open : (l : Line) (r : BatchQueue × Bool) → Open l → Open (offer l r)
unfolding offer
offer-Open l (q, taken) v = v

move-Steps : (l : Line) (a : Move) → Open l → Steps l (accepts l a) (move l a)
unfolding move accepts
move-Steps l (offers b) v = (offer-placed l b, offer-Open l (enqueue_batch l.queue b) v)
move-Steps l takes v = take_next_batch-Steps l l.busy v
move-Steps l sees_done v = end_run-Steps l l.busy v
move-Steps l (returns ok) v = end_send-Steps l l.busy ok v
move-Steps l cancels v = (sym (append-nil (placed l)), v)

run-placed :
    (l : Line) (moves : List Move) → Open l → placed (run l moves) ≡ placed l ++ accepted l moves
unfolding run accepted
run-placed l [] v = sym (append-nil (placed l))
run-placed l (a ∷ moves) v =
    let (same, open_still) = move-Steps l a v in
    run-placed (move l a) moves open_still
    ∙ ap (λ bs. bs ++ accepted (move l a) moves) same
    ∙ append_assoc (placed l) (accepts l a) (accepted (move l a) moves)

-- The queue is within its capacity, which never changes.
abbrev Fits : ℕ → Line → Type 0
Fits c l = (l.queue.capacity ≡ c) × (length l.queue.batches ≤ c)

offer-Fits : (c : ℕ) (l : Line) (b : Batch) → Fits c l → Fits c (offer l (enqueue_batch l.queue b))
unfolding offer enqueue_batch
offer-Fits c l b v =
    if_case (λ (r : BatchQueue × Bool). Fits c (offer l r)) (is_nil b) (λ _. v)
      λ _.
        if_case (λ (r : BatchQueue × Bool). Fits c (offer l r))
          (ltb (length l.queue.batches) l.queue.capacity)
          (λ room. (v.0, ground (arith, length-append l.queue.batches (b ∷ []), v.0))) λ _. v

take-Fits :
    (c : ℕ) (l : Line) (bs : List Batch)
    → l.queue.batches ≡ bs
    → Fits c l
    → Fits c (take_batch l bs)
unfolding take_batch
take-Fits c l [] e v = v
take-Fits c l (b ∷ bs) e (same, room) =
    let shorter : length bs ≤ c = ground (arith, subst (λ x. length x ≤ c) e room) in
    if_case (Fits c) l.cancelled (λ _. (same, shorter)) λ _. (same, shorter)

take_next_batch-Fits : (c : ℕ) (l : Line) (o : Option ℕ) → Fits c l → Fits c (take_next_batch l o)
unfolding take_next_batch
take_next_batch-Fits c l (some n) v = v
take_next_batch-Fits c l none v =
    if_case (Fits c) l.ended (λ _. v) λ _. take-Fits c l l.queue.batches refl v

end_send-Fits : (c : ℕ) (l : Line) (o : Option ℕ) (ok : Bool) → Fits c l → Fits c (end_send l o ok)
unfolding end_send
end_send-Fits c l none ok v = v
end_send-Fits c l (some n) ok v = if_case (Fits c) l.cancelled (λ _. v) λ _. v

end_run-Fits : (c : ℕ) (l : Line) (o : Option ℕ) → Fits c l → Fits c (end_run l o)
unfolding end_run
end_run-Fits c l (some n) v = v
end_run-Fits c l none v = if_case (Fits c) l.cancelled (λ _. v) λ _. v

move-Fits : (c : ℕ) (l : Line) (a : Move) → Fits c l → Fits c (move l a)
unfolding move
move-Fits c l (offers b) v = offer-Fits c l b v
move-Fits c l takes v = take_next_batch-Fits c l l.busy v
move-Fits c l sees_done v = end_run-Fits c l l.busy v
move-Fits c l (returns ok) v = end_send-Fits c l l.busy ok v
move-Fits c l cancels v = v

run-Fits : (c : ℕ) (l : Line) (moves : List Move) → Fits c l → Fits c (run l moves)
unfolding run
run-Fits c l [] v = v
run-Fits c l (a ∷ moves) v = run-Fits c (move l a) moves (move-Fits c l a v)

-- Whatever the order of offers, deliveries, returns and the cancellation: the batches that were
-- sent, then the one that a cancelled run gave up, then those still queued, are the batches that
-- were taken, in the order of their offers, and no more are queued than the capacity, which is at
-- least 1.
pub run-new_line-placed :
    (capacity : ℕ) (moves : List Move)
    → let l = run (new_line capacity) moves in
      (l.sent ++ (l.given_up ++ l.queue.batches) ≡ accepted (new_line capacity) moves)
      × (length l.queue.batches ≤ (if ltb capacity 1 then 1 else capacity))
unfolding new_line new_batch_queue
run-new_line-placed capacity moves = (
  run-placed (new_line capacity) moves (inr refl),
  (run-Fits _ (new_line capacity) moves (refl, omega arith)).1,
)
