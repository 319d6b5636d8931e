-- ===== src/Core/Task.antt =====
-- `class Task` of offwork/core/task.py: the payload of a remote call and its dict. The arguments are
-- kept as the JSON values that travel. Times are in milliseconds, so the default delay of 1.0 is 1000.
pub mod Wire
use offwork.Base.{
  ◌>>=◌, ℕ, zero, String, Bool, true, false, Option, none, some, ◌=ℕ◌, if◌then◌else◌, ◌==◌,
  string_eq,
}
use offwork.Core.Json.{
  Json, null, bool, num, str, list, dict, Items, nil, Fields, end, field, get_field, opt_field,
  truthy,
}

pub record Task : Type 0 where
  pub graph_json : String
  pub function_name : String
  pub args : Items
  pub kwargs : Fields
  pub task_id : String
  pub timeout : Option ℕ
  pub retries : ℕ
  pub retry_delay : ℕ
  pub scheduled_at : Option ℕ
  pub recur_interval : Option ℕ
  pub recur_deadline : Option ℕ
  pub recur_remaining : Option ℕ
  pub schedule_id : Option String
  pub throttle : Option ℕ
  pub storage : Bool

abbrev pub one_second : ℕ
one_second = 1000

abbrev pub opt_num : Option ℕ → Option Json
opt_num none = none
opt_num (some n) = some (num n)

abbrev pub opt_str : Option String → Option Json
opt_str none = none
opt_str (some s) = some (str s)

-- `if n != default: …`
abbrev pub unless : ℕ → ℕ → Option Json
unless default n = if n =ℕ default then none else some (num n)

abbrev pub flag : Bool → Option Json
flag b = if b then some (bool true) else none

-- The keys from "throttle" on, then those from "recur_deadline" on, and so on.
abbrev pub late_fields : Task → Fields
late_fields t = opt_field "recur_deadline" (opt_num t.recur_deadline) (
    opt_field "recur_remaining" (opt_num t.recur_remaining) (
      opt_field "schedule_id" (opt_str t.schedule_id)
        (opt_field "throttle" (opt_num t.throttle) (opt_field "storage" (flag t.storage) end))))

abbrev pub option_fields : Task → Fields
option_fields t = opt_field "timeout" (opt_num t.timeout) (
    opt_field "retries" (unless 0 t.retries) (
      opt_field "retry_delay" (unless one_second t.retry_delay) (
        opt_field "scheduled_at" (opt_num t.scheduled_at)
          (opt_field "recur_interval" (opt_num t.recur_interval) (late_fields t)))))

-- `_to_dict`
unfoldable pub to_dict : Task → Fields
to_dict t = field "id" (str t.task_id) (
    field "graph" (str t.graph_json) (
      field "function" (str t.function_name)
        (field "args" (list t.args) (field "kwargs" (dict t.kwargs) (option_fields t)))))

-- How a field of the dict is read. Python builds the task also from a value of another type than
-- the field's, and fails where the field is used; here the reading fails, with `none`.
abbrev pub read_str : Option Json → Option String
read_str (some (str s)) = some s
read_str _ = none

abbrev pub read_num : ℕ → Option Json → Option ℕ
read_num default none = some default
read_num default (some (num n)) = some n
read_num default (some _) = none

abbrev pub read_opt_num : Option Json → Option (Option ℕ)
read_opt_num none = some none
read_opt_num (some null) = some none
read_opt_num (some (num n)) = some (some n)
read_opt_num (some _) = none

abbrev pub read_opt_str : Option Json → Option (Option String)
read_opt_str none = some none
read_opt_str (some null) = some none
read_opt_str (some (str s)) = some (some s)
read_opt_str (some _) = none

abbrev pub read_id : String → Option Json → Option String
read_id default none = some default
read_id default (some (str s)) = some s
read_id default (some _) = none

abbrev pub read_args : Option Json → Option Items
read_args none = some nil
read_args (some (list xs)) = some xs
read_args (some _) = none

abbrev pub read_kwargs : Option Json → Option Fields
read_kwargs none = some end
read_kwargs (some (dict fs)) = some fs
read_kwargs (some _) = none

abbrev pub read_flag : Option Json → Bool
read_flag none = false
read_flag (some v) = truthy v

-- The construction of a task from a dict in `from_json` and in `verify_task_envelope`, which differ
-- in the id of a task that has none.
unfoldable pub from_dict : String → Fields → Option Task
from_dict default_id d = do
  graph ← read_str (get_field "graph" d)
  function ← read_str (get_field "function" d)
  args ← read_args (get_field "args" d)
  kwargs ← read_kwargs (get_field "kwargs" d)
  task_id ← read_id default_id (get_field "id" d)
  timeout ← read_opt_num (get_field "timeout" d)
  retries ← read_num 0 (get_field "retries" d)
  retry_delay ← read_num one_second (get_field "retry_delay" d)
  scheduled_at ← read_opt_num (get_field "scheduled_at" d)
  recur_interval ← read_opt_num (get_field "recur_interval" d)
  recur_deadline ← read_opt_num (get_field "recur_deadline" d)
  recur_remaining ← read_opt_num (get_field "recur_remaining" d)
  schedule_id ← read_opt_str (get_field "schedule_id" d)
  throttle ← read_opt_num (get_field "throttle" d)
  some (record {
    graph_json = graph;
    function_name = function;
    args = args;
    kwargs = kwargs;
    task_id = task_id;
    timeout = timeout;
    retries = retries;
    retry_delay = retry_delay;
    scheduled_at = scheduled_at;
    recur_interval = recur_interval;
    recur_deadline = recur_deadline;
    recur_remaining = recur_remaining;
    schedule_id = schedule_id;
    throttle = throttle;
    storage = read_flag (get_field "storage" d);
  })
