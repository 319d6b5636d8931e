-- ===== src/Core/Task/Wire.antt =====
-- The dict of `Task` in offwork/core/task.py, written and read.
use offwork.Base.{ℕ, String, ◌≡◌, refl, Bool, true, false, Option, none, some, arith, string_eq}
use offwork.Core.Json.{truthy, field_laws}
use offwork.Core.Task.{
  Task, to_dict, from_dict, opt_num, opt_str, unless, flag, read_opt_num, read_opt_str, read_num,
  read_flag,
}

pub read_opt_num-opt : (o : Option ℕ) → read_opt_num (opt_num o) ≡ some o
read_opt_num-opt none = refl
read_opt_num-opt (some n) = refl

pub read_opt_str-opt : (o : Option String) → read_opt_str (opt_str o) ≡ some o
read_opt_str-opt none = refl
read_opt_str-opt (some s) = refl

pub read_num-unless : (default n : ℕ) → read_num default (unless default n) ≡ some n
read_num-unless default n = ground arith

pub read_flag-flag : (b : Bool) → read_flag (flag b) ≡ b
unfolding truthy
read_flag-flag true = refl
read_flag-flag false = refl

pub ruleset read_laws = (read_opt_num-opt, read_opt_str-opt, read_num-unless, read_flag-flag)

-- Reading the dict of a task gives the task, whichever of its fields the dict leaves out.
pub from_dict-to_dict : (default_id : String) (t : Task) → from_dict default_id (to_dict t) ≡ some t
unfolding from_dict to_dict string_eq
from_dict-to_dict default_id t = simp (field_laws, read_laws)
