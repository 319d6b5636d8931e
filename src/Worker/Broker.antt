-- ===== src/Worker/Broker.antt =====
-- `class _Broker` of offwork/worker/backends/local.py. `_dispatch` has no await, so a request is one
-- step of the broker's state. `now` is `time.time()`, in milliseconds.
pub mod Mailbox
pub mod Frame
use offwork.Base.{
  ℕ, zero, suc, ◌+◌, String, ◌<>◌, Bool, true, false, not, ◌&&◌, Option, none, some, List, [], ◌∷◌,
  ◌++◌, map, ltb, leb, ◌==◌, string_eq, contains, if◌then◌else◌,
}
use offwork.Base.Dict.{Dict, lookup, insert, erase}

-- The value of a message's "op" with its other keys. `yield_get` has `after_seq + 1`, since the
-- clients of the broker send -1 or more.
pub data Request : Type 0 where
  submit : (task_json : String) → Request
  result_put : (task_id result : String) → Request
  result_try : (task_id : String) → Request
  hb_put : (task_id : String) (ts : ℕ) → Request
  hb_get : (task_id : String) → Request
  hb_batch : (task_ids : List String) → Request
  cancel : (task_id : String) → Request
  is_cancelled : (task_id : String) → Request
  progress_put : (task_id value : String) → Request
  progress_get : (task_id : String) → Request
  yield_put : (task_id : String) (seq : ℕ) (value : String) → Request
  yield_get : (task_id : String) (start : ℕ) → Request
  schedule_cancel : (schedule_id : String) → Request
  schedule_check : (schedule_id : String) → Request
  throttle_check : (function_name : String) → Request
  throttle_record : (function_name : String) (seconds : ℕ) → Request
  other_op : (op : String) → Request

-- The broker's answer, by the type of its "data".
pub data Reply : Type 0 where
  done : Reply
  text : Option String → Reply
  stamp : Option ℕ → Reply
  stamps : List (String × Option ℕ) → Reply
  verdict : Bool → Reply
  yields : List (ℕ × String) → Reply
  error : String → Reply

-- A result slot is a queue of one place. `result_subs` are the queues of the subscribers.
pub record Broker : Type 0 where
  pub tasks : List String
  pub results : Dict String (Option String)
  pub heartbeats : Dict String ℕ
  pub cancelled : List String
  pub cancelled_schedules : List String
  pub throttles : Dict String ℕ
  pub progress : Dict String String
  pub buffers : Dict String (List String)
  pub result_subs : List (List String)

abbrev pub new_broker : Broker
new_broker = record {
  tasks = [];
  results = [];
  heartbeats = [];
  cancelled = [];
  cancelled_schedules = [];
  throttles = [];
  progress = [];
  buffers = [];
  result_subs = [];
}

-- `_result_slot`: a missing slot is made, empty.
abbrev pub slot : Option (Option String) → Option String
slot none = none
slot (some place) = place

abbrev pub put_nowait : Option String → String → Option String
put_nowait none result = some result
put_nowait (some first) result = some first

abbrev pub add : String → List String → List String
add x xs = if contains xs x then xs else x ∷ xs

abbrev pub buffer : Option (List String) → List String
buffer none = []
buffer (some buf) = buf

-- `while len(buf) <= seq: buf.append("")` and `buf[seq] = value`.
unfoldable pub store_at : ℕ → String → List String → List String
store_at zero value [] = value ∷ []
store_at zero value (x ∷ buf) = value ∷ buf
store_at (suc seq) value [] = "" ∷ store_at seq value []
store_at (suc seq) value (x ∷ buf) = x ∷ store_at seq value buf

-- `[[i, buf[i]] for i in range(start, len(buf)) if buf[i] != ""]`; the list given is `buf[i:]`.
unfoldable pub entries_from : ℕ → ℕ → List String → List (ℕ × String)
entries_from start i [] = []
entries_from start i (value ∷ buf) =
    let rest = entries_from start (suc i) buf in
    if leb start i && not (value == "") then (i, value) ∷ rest else rest

-- `expiry is not None and time.time() < expiry`
abbrev pub cooling : ℕ → Option ℕ → Bool
cooling now none = false
cooling now (some expiry) = ltb now expiry

unfoldable pub dispatch : Request → ℕ → Broker → Reply × Broker
dispatch (submit task_json) now b = (done, record b { tasks = b.tasks ++ (task_json ∷ []) })
dispatch (result_put task_id result) now b = (
  done,
  record b {
    results = insert task_id (put_nowait (slot (lookup task_id b.results)) result) b.results;
    result_subs = map (λ q. q ++ (task_id ∷ [])) b.result_subs;
  },
)
dispatch (result_try task_id) now b =
    (text (slot (lookup task_id b.results)), record b { results = insert task_id none b.results })
dispatch (hb_put task_id ts) now b =
    (done, record b { heartbeats = insert task_id ts b.heartbeats })
dispatch (hb_get task_id) now b = (stamp (lookup task_id b.heartbeats), b)
dispatch (hb_batch task_ids) now b =
    (stamps (map (λ tid. (tid, lookup tid b.heartbeats)) task_ids), b)
dispatch (cancel task_id) now b = (done, record b { cancelled = add task_id b.cancelled })
dispatch (is_cancelled task_id) now b = (verdict (contains b.cancelled task_id), b)
dispatch (progress_put task_id value) now b =
    (done, record b { progress = insert task_id value b.progress })
dispatch (progress_get task_id) now b = (text (lookup task_id b.progress), b)
dispatch (yield_put task_id seq value) now b = (
  done,
  record b {
    buffers = insert task_id (store_at seq value (buffer (lookup task_id b.buffers))) b.buffers;
  },
)
dispatch (yield_get task_id start) now b =
    (yields (entries_from start 0 (buffer (lookup task_id b.buffers))), b)
dispatch (schedule_cancel schedule_id) now b =
    (done, record b { cancelled_schedules = add schedule_id b.cancelled_schedules })
dispatch (schedule_check schedule_id) now b =
    (verdict (contains b.cancelled_schedules schedule_id), b)
dispatch (throttle_check function_name) now b =
    if cooling now (lookup function_name b.throttles)
    then (verdict false, b)
    else (verdict true, record b { throttles = erase function_name b.throttles })
dispatch (throttle_record function_name seconds) now b =
    (done, record b { throttles = insert function_name (now + seconds) b.throttles })
dispatch (other_op op) now b = (error ("unknown op: " <> op), b)

-- Requests, each at its time.
unfoldable pub serve : List (Request × ℕ) → Broker → Broker
unfolding dispatch
serve [] b = b
serve ((r, now) ∷ rest) b = serve rest (dispatch r now b).1
