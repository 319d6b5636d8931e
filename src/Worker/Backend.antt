-- ===== src/Worker/Backend.antt =====
-- `LocalBackend` of offwork/worker/backends/local.py: a method is a request to the broker, over a
-- connection that can lose the request or the reply; then the method raises.
use offwork.Base.{ℕ, String, ◌≡◌, refl, ◌⊎◌, inl, inr, Bool, true, false, Option, none, List, []}
use offwork.Worker.Broker.{Request, Reply, text, stamp, stamps, verdict, yields, Broker, dispatch}
use offwork.Worker.Result.{Raised}

-- A call that returns or raises.
pub data Answer {ℓ} (A : Type ℓ) : Type ℓ where
  answer : A → Answer A
  broke : Raised → Answer A

pub Answer-cases {ℓ} :
    {A : Type ℓ} (a : Answer A) → ((x : A) × (a ≡ answer x)) ⊎ ((exc : Raised) × (a ≡ broke exc))
Answer-cases (answer x) = inl (x, refl)
Answer-cases (broke exc) = inr (exc, refl)

-- What happens to one request: `lost_reply` has reached the broker.
pub data Link : Type 0 where
  fine : Link
  lost_request : Raised → Link
  lost_reply : Raised → Link

abbrev pub Net : Type 0
Net = Request → ℕ → Link

abbrev pub Io : Type 0 → Type 0
Io A = Broker → Answer A × Broker

abbrev pub pure : {A : Type 0} → A → Io A
pure a b = (answer a, b)

abbrev pub fails : {A : Type 0} → Raised → Io A
fails exc b = (broke exc, b)

-- `try: … except Exception as exc: …`, after the call has returned or raised.
abbrev pub settle : {A B : Type 0} → Answer A → (A → Io B) → (Raised → Io B) → Io B
settle (answer a) f handler b = f a b
settle (broke exc) f handler b = handler exc b

abbrev pub attempt : {A B : Type 0} → Io A → (A → Io B) → (Raised → Io B) → Io B
attempt m f handler b = settle (m b).0 f handler (m b).1

infixl 5 ◌>>=◌ ◌>>◌
abbrev pub ◌>>=◌ : {A B : Type 0} → Io A → (A → Io B) → Io B
m >>= f = attempt m f fails

abbrev pub ◌>>◌ : {A B : Type 0} → Io A → Io B → Io B
m >> k = m >>= λ _. k

-- `_request`
unfoldable pub call : Link → Request → ℕ → Io Reply
call fine r now b = (answer (dispatch r now b).0, (dispatch r now b).1)
call (lost_request exc) r now b = (broke exc, b)
call (lost_reply exc) r now b = (broke exc, (dispatch r now b).1)

-- `resp.get("data")` of the type that the operation returns, with the method's default.
abbrev pub text_of : Reply → Option String
text_of (text o) = o
text_of _ = none

abbrev pub stamp_of : Reply → Option ℕ
stamp_of (stamp o) = o
stamp_of _ = none

abbrev pub stamps_of : Reply → List (String × Option ℕ)
stamps_of (stamps xs) = xs
stamps_of _ = []

abbrev pub yields_of : Reply → List (ℕ × String)
yields_of (yields xs) = xs
yields_of _ = []

abbrev pub verdict_or : Bool → Reply → Bool
verdict_or default (verdict ok) = ok
verdict_or default _ = default

module _ (net : Net) (now : ℕ) where
  unfoldable pub ask : Request → Io Reply
  ask r = call (net r now) r now

  unfoldable pub submit : String → Io Unit
  submit task_json = do ask (Request.submit task_json); pure tt

  unfoldable pub send_result : String → String → Io Unit
  send_result task_id result_json = do ask (Request.result_put task_id result_json); pure tt

  unfoldable pub try_get_result : String → Io (Option String)
  try_get_result task_id = do resp ← ask (Request.result_try task_id); pure (text_of resp)

  unfoldable pub send_heartbeat : String → Io Unit
  send_heartbeat task_id = do ask (Request.hb_put task_id now); pure tt

  unfoldable pub get_heartbeat : String → Io (Option ℕ)
  get_heartbeat task_id = do resp ← ask (Request.hb_get task_id); pure (stamp_of resp)

  unfoldable pub get_heartbeats : List String → Io (List (String × Option ℕ))
  get_heartbeats task_ids = do resp ← ask (Request.hb_batch task_ids); pure (stamps_of resp)

  unfoldable pub cancel_task : String → Io Unit
  cancel_task task_id = do ask (Request.cancel task_id); pure tt

  unfoldable pub is_cancelled : String → Io Bool
  is_cancelled task_id = do resp ← ask (Request.is_cancelled task_id); pure (verdict_or false resp)

  unfoldable pub send_progress : String → String → Io Unit
  send_progress task_id progress_json = do ask (Request.progress_put task_id progress_json); pure tt

  unfoldable pub get_progress : String → Io (Option String)
  get_progress task_id = do resp ← ask (Request.progress_get task_id); pure (text_of resp)

  unfoldable pub send_yield : String → ℕ → String → Io Unit
  send_yield task_id seq value_json = do ask (Request.yield_put task_id seq value_json); pure tt

  unfoldable pub get_yields : String → ℕ → Io (List (ℕ × String))
  get_yields task_id start = do resp ← ask (Request.yield_get task_id start); pure (yields_of resp)

  unfoldable pub cancel_schedule : String → Io Unit
  cancel_schedule schedule_id = do ask (Request.schedule_cancel schedule_id); pure tt

  unfoldable pub is_schedule_cancelled : String → Io Bool
  is_schedule_cancelled schedule_id = do
    resp ← ask (Request.schedule_check schedule_id)
    pure (verdict_or false resp)

  unfoldable pub check_throttle : String → Io Bool
  check_throttle function_name = do
    resp ← ask (Request.throttle_check function_name)
    pure (verdict_or true resp)

  unfoldable pub record_throttle : String → ℕ → Io Unit
  record_throttle function_name seconds = do
    ask (Request.throttle_record function_name seconds)
    pure tt

  -- `heartbeat_and_check_cancel` of offwork/worker/backends/base.py.
  unfoldable pub heartbeat_and_check_cancel : String → Io Bool
  unfolding send_heartbeat is_cancelled
  heartbeat_and_check_cancel task_id = do send_heartbeat task_id; is_cancelled task_id
