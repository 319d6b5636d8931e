-- ===== src/Worker/Policy/Attempts.antt =====
-- The attempts that `run_with_policy` of offwork/worker/worker.py makes.
use offwork.Base.{
  ℕ, zero, suc, ◌+◌, ◌≤◌, ◌<◌, ◌≡◌, ◌⊎◌, inl, inr, refl, ap, sym, subst, ◌∙◌, List, [], ◌∷◌, arith,
}
use native.Mathlib.Decide.{ℕ_discrete}
use offwork.Worker.Policy.{
  Attempt, returned, failed, stopped, Run, delay, attempts_from, run_with_policy,
}

abbrev pub Failed {ℓ} : {V : Type ℓ} {E : Type 0} → Attempt V E → Type 0
Failed (failed _) = Unit
Failed (returned _) = ⊥
Failed (stopped _) = ⊥

-- The delays of `n` retries from `attempt` on.
unfoldable pub backoff : ℕ → ℕ → ℕ → List ℕ
backoff retry_delay attempt zero = []
backoff retry_delay attempt (suc n) =
    delay retry_delay attempt ∷ backoff retry_delay (suc attempt) n

module _ {ℓ} {V : Type ℓ} {E : Type 0} (run : ℕ → Attempt V E) (retry_delay : ℕ) where
  -- Attempts `attempt` to `attempt + n` are made; all but the last fail.
  abbrev pub Tried : ℕ → ℕ → ℕ → Run V E → Type ℓ
  Tried left attempt n r =
      (n ≤ left)
      × ((i : ℕ) → attempt ≤ i → i < attempt + n → Failed (run i))
      × (Failed (run (attempt + n)) → n ≡ left)
      × (r.outcome ≡ run (attempt + n))
      × (r.sleeps ≡ backoff retry_delay attempt n)

  Attempt-cases :
      (a : Attempt V E)
      → ((e : E) × (a ≡ failed e)) ⊎ (((v : V) × (a ≡ returned v)) ⊎ ((e : E) × (a ≡ stopped e)))
  Attempt-cases (returned v) = inr (inl (v, refl))
  Attempt-cases (failed e) = inl (e, refl)
  Attempt-cases (stopped e) = inr (inr (e, refl))

  run_at : {m n : ℕ} → m ≡ n → run m ≡ run n
  run_at p = ap run p

  none_before : (attempt i : ℕ) → attempt ≤ i → i < attempt + 0 → Failed (run i)
  none_before attempt i lo hi = absurd (omega (arith, lo, hi))

  -- An attempt that does not fail is the last one.
  at_once :
      (left attempt : ℕ) (a : Attempt V E)
      → run attempt ≡ a
      → (Failed a → ⊥)
      → (attempts_from run retry_delay left attempt).outcome ≡ a
      → (attempts_from run retry_delay left attempt).sleeps ≡ []
      → Tried left attempt 0 (attempts_from run retry_delay left attempt)
  unfolding backoff
  at_once left attempt a p fine outcome sleeps =
      let here : run (attempt + 0) ≡ a = run_at (omega arith) ∙ p in
      (
        omega arith,
        none_before attempt,
        λ f. absurd (fine (subst Failed here f)),
        outcome ∙ sym here,
        sleeps,
      )

  one_more :
      (left attempt n : ℕ) (e : E)
      → run attempt ≡ failed e
      → Tried left (suc attempt) n (attempts_from run retry_delay left (suc attempt))
      → Tried (suc left) attempt (suc n) (attempts_from run retry_delay (suc left) attempt)
  unfolding attempts_from backoff
  one_more left attempt n e p (bound, before, last, outcome, sleeps) =
      let shift : run (suc attempt + n) ≡ run (attempt + suc n) = run_at (omega arith) in
      (
        omega (arith, bound),
        λ i lo hi. elim (ℕ_discrete i attempt) [
          | yes same ↦ subst Failed (sym (run_at same ∙ p)) tt
          | no differ ↦ before i (omega (arith, lo, differ)) (omega (arith, hi))
        ],
        λ f. ap suc (last (subst Failed (sym shift) f)),
        rw (p, attempts_from) (outcome ∙ shift),
        rw (p, attempts_from) (ap (λ ds. delay retry_delay attempt ∷ ds) sleeps),
      )

  attempts_from-Tried :
      (left attempt : ℕ)
      → (n : ℕ) × Tried left attempt n (attempts_from run retry_delay left attempt)
  unfolding attempts_from backoff
  attempts_from-Tried zero attempt =
      (0, (omega arith, none_before attempt, λ _. refl, run_at (omega arith), refl))
  attempts_from-Tried (suc left) attempt = elim (Attempt-cases (run attempt)) [
    | inr (inl (v, p)) ↦ (
      0,
      at_once (suc left) attempt (returned v) p (λ h. h) (rw (p, attempts_from) refl)
          (rw (p, attempts_from) refl),
    )
    | inr (inr (e, p)) ↦ (
      0,
      at_once (suc left) attempt (stopped e) p (λ h. h) (rw (p, attempts_from) refl)
          (rw (p, attempts_from) refl),
    )
    | inl (e, p) ↦
        let (n, tried) = attempts_from-Tried left (suc attempt) in
        (suc n, one_more left attempt n e p tried)
  ]

  -- The task is tried until an attempt does not fail, at most `1 + retries` times; the caller gets the
  -- last attempt's value or exception; and between the attempts the delay doubles.
  pub policy_attempts :
      (retries : ℕ) → (n : ℕ) × Tried retries 0 n (run_with_policy run retry_delay retries)
  unfolding run_with_policy
  policy_attempts retries = attempts_from-Tried retries 0
