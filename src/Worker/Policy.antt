-- ===== src/Worker/Policy.antt =====
-- `Worker.run_with_policy` of offwork/worker/worker.py. `run` is one attempt, by its number: the
-- function under its timeout. Delays are in milliseconds.
pub mod Attempts
use offwork.Base.{ℕ, zero, suc, ◌+◌, ◌*◌, ◌^◌, List, [], ◌∷◌}

-- How an attempt ends. `stopped` is a BaseException, such as CancelledError, which is not caught.
pub data Attempt {ℓ} (V : Type ℓ) (E : Type 0) : Type ℓ where
  returned : V → Attempt V E
  failed : E → Attempt V E
  stopped : E → Attempt V E

-- The ending of the call and the delays that it slept, the first one first.
pub record Run {ℓ} (V : Type ℓ) (E : Type 0) : Type ℓ where
  pub outcome : Attempt V E
  pub sleeps : List ℕ

-- `task.retry_delay * (2 ** attempt)`
abbrev pub delay : ℕ → ℕ → ℕ
delay retry_delay attempt = retry_delay * 2 ^ attempt

module _ {ℓ} {V : Type ℓ} {E : Type 0} (run : ℕ → Attempt V E) (retry_delay : ℕ) where
  abbrev pub slept : ℕ → Run V E → Run V E
  slept attempt r = record r { sleeps = delay retry_delay attempt ∷ r.sleeps }

  -- The loop at `attempt` with `left` retries to come.
  unfoldable pub attempts_from : ℕ → ℕ → Run V E
  attempts_from zero attempt = record { outcome = run attempt; sleeps = [] }
  attempts_from (suc left) attempt =
      let rest = attempts_from left (suc attempt) in
      elim (run attempt) [
        | returned v ↦ record { outcome = returned v; sleeps = [] }
        | stopped e ↦ record { outcome = stopped e; sleeps = [] }
        | failed e ↦ slept attempt rest
      ]

  unfoldable pub run_with_policy : ℕ → Run V E
  unfolding attempts_from
  run_with_policy retries = attempts_from retries 0
