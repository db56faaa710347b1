-- ===== src/Forward/Client/Budget.antt =====
-- How long a delivery may take (`ForwardOpusRequestTimeout` in internal/audioforward/client.go).
use autostream_discord_bot.Base.{
  ℕ, zero, suc, ◌+◌, ◌-◌, ◌≤◌, ◌<◌, ◌≡◌, ◌⊎◌, inr, refl, subst, arith, if◌then◌else◌, if_case, leb,
  ◌==◌,
}
use autostream_discord_bot.Jobs.{seconds}
use autostream_discord_bot.Forward.Client.{
  Config, default_request_timeout, max_request_timeout, retry_delay, attempts_of, per_attempt,
  finish_budget, budget_round, budget_loop, forward_opus_request_timeout,
}

-- The time that `left` attempts take from attempt `attempt` on, with the waits between them.
unfoldable pub attempts_time : Config → ℕ → ℕ → ℕ
attempts_time c zero attempt = 0
attempts_time c (suc left) attempt =
    let later = retry_delay c.retry_base_delay attempt + attempts_time c left (suc attempt) in
    per_attempt c + (if left == 0 then 0 else later)

abbrev pub IsEnough : ℕ → ℕ → Type 0
IsEnough needed budget =
    (default_request_timeout ≤ budget)
    × (budget ≤ max_request_timeout)
    × ((needed ≤ budget) ⊎ (budget ≡ max_request_timeout))

finish_budget-IsEnough : (budget : ℕ) → IsEnough budget (finish_budget budget)
finish_budget-IsEnough budget = (ground arith, ground arith, ground arith)

max-IsEnough : (needed : ℕ) → IsEnough needed max_request_timeout
max-IsEnough needed = (omega arith, omega arith, inr refl)

budget_round-IsEnough :
    (one delay left budget time rest : ℕ)
    → budget < max_request_timeout
    → (budget + one + delay < max_request_timeout → IsEnough (budget + one + delay + time) rest)
    → IsEnough
        (budget + (one + (if left == 0 then 0 else delay + time)))
        (budget_round one delay left budget rest)
unfolding budget_round
budget_round-IsEnough one delay left budget time rest low later =
    if_case (IsEnough needed) (leb (max_request_timeout - budget) one) (λ _. max-IsEnough needed)
      λ fits.
        if_case (IsEnough needed) (left == 0)
          (λ last.
            subst (λ n. IsEnough n (finish_budget (budget + one))) (ground arith)
              (finish_budget-IsEnough (budget + one)))
          λ more.
            if_case (IsEnough needed) (leb (max_request_timeout - (budget + one)) delay)
              (λ _. max-IsEnough needed)
              λ waits. subst (λ n. IsEnough n rest) (ground arith) (later (ground arith))
  where
    needed : ℕ
    needed = budget + (one + (if left == 0 then 0 else delay + time))

budget_loop-IsEnough :
    (c : Config) (left attempt budget : ℕ)
    → budget < max_request_timeout
    → IsEnough (budget + attempts_time c left attempt) (budget_loop c left attempt budget)
unfolding budget_loop attempts_time
budget_loop-IsEnough c zero attempt budget low =
    subst (λ n. IsEnough n (finish_budget budget)) (omega arith) (finish_budget-IsEnough budget)
budget_loop-IsEnough c (suc left) attempt budget low =
    budget_round-IsEnough (per_attempt c) (retry_delay c.retry_base_delay attempt) left budget
      (attempts_time c left (suc attempt)) _ low
      (budget_loop-IsEnough c left (suc attempt)
        (budget + per_attempt c + retry_delay c.retry_base_delay attempt))

-- The time limit of a delivery is from 5 to 30 seconds and enough for every attempt and every
-- delay between them with one second to spare, or it is the 30 seconds.
pub forward_opus_request_timeout-IsEnough :
    (c : Config)
    → IsEnough (seconds 1 + attempts_time c (attempts_of c) 1) (forward_opus_request_timeout c)
unfolding forward_opus_request_timeout
forward_opus_request_timeout-IsEnough c =
    budget_loop-IsEnough c (attempts_of c) 1 (seconds 1) (omega arith)
