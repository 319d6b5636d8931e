-- ===== src/Worker/Broker/Mailbox.antt =====
-- Results, cancellation and throttling in `_Broker` of offwork/worker/backends/local.py.
use offwork.Base.{
  ℕ, ◌+◌, ◌≤◌, String, ◌≡◌, ◌≢◌, refl, ap, true, Option, none, some, List, [], ◌∷◌, arith, leb,
  ==_refl, string_eq, contains,
}
use offwork.Base.Dict.{lookup, insert, lookup-insert, lookup-erase}
use offwork.Worker.Broker.{
  Request, submit, result_put, result_try, hb_put, hb_get, hb_batch, cancel, is_cancelled,
  progress_put, progress_get, yield_put, yield_get, schedule_cancel, schedule_check, throttle_check,
  throttle_record, other_op, text, verdict, Broker, slot, add, dispatch, serve,
}

-- The result that waits for a task.
abbrev pub waiting : Broker → String → Option String
waiting b task_id = slot (lookup task_id b.results)

-- The first of two results wins: it is what the next `result_try` returns, once; whatever the times.
pub first_result_wins :
    (b : Broker) (task_id first second : String) (t₁ t₂ t₃ t₄ : ℕ)
    → waiting b task_id ≡ none
    → let b₂ = serve ((result_put task_id first, t₁) ∷ (result_put task_id second, t₂) ∷ []) b in
      ((dispatch (result_try task_id) t₃ b₂).0 ≡ text (some first))
      × ((dispatch (result_try task_id) t₄ (dispatch (result_try task_id) t₃ b₂).1).0 ≡ text none)
unfolding serve
first_result_wins b task_id first second t₁ t₂ t₃ t₄ empty =
    simp (lookup-insert, ==_refl, empty) (refl, refl)

-- The set of cancelled tasks only grows.
contains-add :
    (x y : String) (xs : List String) → contains xs y ≡ true → contains (add x xs) y ≡ true
contains-add x y xs h = ground (arith, h)

pub contains-add_self : (x : String) (xs : List String) → contains (add x xs) x ≡ true
contains-add_self x xs = ground (arith, ==_refl x)

pub stays_cancelled :
    (r : Request) (now : ℕ) (b : Broker) (task_id : String)
    → contains b.cancelled task_id ≡ true
    → contains (dispatch r now b).1.cancelled task_id ≡ true
unfolding dispatch
stays_cancelled (cancel other) now b task_id h = contains-add other task_id b.cancelled h
stays_cancelled (throttle_check name) now b task_id h = ground arith
stays_cancelled (submit _) now b task_id h = h
stays_cancelled (result_put _ _) now b task_id h = h
stays_cancelled (result_try _) now b task_id h = h
stays_cancelled (hb_put _ _) now b task_id h = h
stays_cancelled (hb_get _) now b task_id h = h
stays_cancelled (hb_batch _) now b task_id h = h
stays_cancelled (is_cancelled _) now b task_id h = h
stays_cancelled (progress_put _ _) now b task_id h = h
stays_cancelled (progress_get _) now b task_id h = h
stays_cancelled (yield_put _ _ _) now b task_id h = h
stays_cancelled (yield_get _ _) now b task_id h = h
stays_cancelled (schedule_cancel _) now b task_id h = h
stays_cancelled (schedule_check _) now b task_id h = h
stays_cancelled (throttle_record _ _) now b task_id h = h
stays_cancelled (other_op _) now b task_id h = h

serve_stays_cancelled :
    (rs : List (Request × ℕ)) (b : Broker) (task_id : String)
    → contains b.cancelled task_id ≡ true
    → contains (serve rs b).cancelled task_id ≡ true
unfolding serve
serve_stays_cancelled [] b task_id h = h
serve_stays_cancelled ((r, now) ∷ rs) b task_id h =
    serve_stays_cancelled rs (dispatch r now b).1 task_id (stays_cancelled r now b task_id h)

-- Once a task is cancelled, `is_cancelled` answers yes for good: whatever requests come between, and
-- whatever their times.
pub cancel_is_permanent :
    (b : Broker) (task_id : String) (rs : List (Request × ℕ)) (t₁ t₂ : ℕ)
    → (dispatch (is_cancelled task_id) t₂ (serve ((cancel task_id, t₁) ∷ rs) b)).0 ≡ verdict true
unfolding serve
cancel_is_permanent b task_id rs t₁ t₂ = ap verdict (
    serve_stays_cancelled rs (dispatch (cancel task_id) t₁ b).1 task_id
      (contains-add_self task_id b.cancelled))

-- After a function's throttle is recorded at `t`, a check at `t'` passes exactly when the delay is
-- over, and then forgets the entry; the checks of the other functions answer as before.
pub throttle_window :
    (b : Broker) (name other : String) (seconds t t' : ℕ)
    → let b' = (dispatch (throttle_record name seconds) t b).1 in
      ((dispatch (throttle_check name) t' b').0 ≡ verdict (leb (t + seconds) t'))
      × (t + seconds ≤ t' → lookup name (dispatch (throttle_check name) t' b').1.throttles ≡ none)
      × (other ≢ name
          → (dispatch (throttle_check other) t' b').0 ≡ (dispatch (throttle_check other) t' b).0)
unfolding dispatch
throttle_window b name other seconds t t' =
    let stored = lookup-insert name name (t + seconds) b.throttles in
    let kept = lookup-insert other name (t + seconds) b.throttles in
    let gone = lookup-erase name name (insert name (t + seconds) b.throttles) in
    (
      ground (arith, stored, ==_refl name),
      λ late. ground (arith, stored, gone, ==_refl name),
      λ differ. ground (arith, kept, differ),
    )
