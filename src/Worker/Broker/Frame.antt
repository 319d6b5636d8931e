-- ===== src/Worker/Broker/Frame.antt =====
-- What a request to `_Broker` of offwork/worker/backends/local.py touches.
use offwork.Base.{
  ℕ, String, ◌≡◌, ◌≢◌, ◌∙◌, refl, Bool, Option, none, List, [], ◌∷◌, arith, string_eq, contains,
}
use offwork.Base.Dict.{Dict, lookup, insert, lookup-insert}
use offwork.Worker.Broker.{
  Request, submit, result_put, result_try, hb_put, hb_get, hb_batch, cancel, is_cancelled,
  progress_put, progress_get, yield_put, yield_get, schedule_cancel, schedule_check, throttle_check,
  throttle_record, other_op, Broker, slot, add, buffer, store_at, put_nowait, dispatch, serve,
}

-- The request writes nothing of the task.
abbrev pub Apart : String → Request → Type 0
Apart task_id (result_put other _) = task_id ≢ other
Apart task_id (result_try other) = task_id ≢ other
Apart task_id (hb_put other _) = task_id ≢ other
Apart task_id (cancel other) = task_id ≢ other
Apart task_id (progress_put other _) = task_id ≢ other
Apart task_id (yield_put other _ _) = task_id ≢ other
Apart task_id _ = Unit

abbrev pub AllApart : String → List (Request × ℕ) → Type 0
AllApart task_id [] = Unit
AllApart task_id ((r, _) ∷ rs) = Apart task_id r × AllApart task_id rs

-- All that the broker holds of a task once it is queued.
pub record TaskView : Type 0 where
  pub result : Option (Option String)
  pub heartbeat : Option ℕ
  pub progress : Option String
  pub yielded : Option (List String)
  pub cancelled : Bool

abbrev pub view : String → Broker → TaskView
view task_id b = record {
  result = lookup task_id b.results;
  heartbeat = lookup task_id b.heartbeats;
  progress = lookup task_id b.progress;
  yielded = lookup task_id b.buffers;
  cancelled = contains b.cancelled task_id;
}

pub lookup-insert_other :
    {V : Type 0} (j k : String) (v : V) (d : Dict String V)
    → j ≢ k
    → lookup j (insert k v d) ≡ lookup j d
lookup-insert_other j k v d differ = ground (arith, lookup-insert j k v d, differ)

contains-add_other :
    (x y : String) (xs : List String) → y ≢ x → contains (add x xs) y ≡ contains xs y
contains-add_other x y xs differ = ground arith

pub dispatch-view :
    (r : Request) (now : ℕ) (b : Broker) (task_id : String)
    → Apart task_id r
    → view task_id (dispatch r now b).1 ≡ view task_id b
unfolding dispatch
dispatch-view (result_put other v) now b task_id h =
    simp
      (lookup-insert_other task_id other (put_nowait (slot (lookup other b.results)) v) b.results h)
      refl
dispatch-view (result_try other) now b task_id h =
    simp (lookup-insert_other task_id other none b.results h) refl
dispatch-view (hb_put other ts) now b task_id h =
    simp (lookup-insert_other task_id other ts b.heartbeats h) refl
dispatch-view (cancel other) now b task_id h =
    simp (contains-add_other other task_id b.cancelled h) refl
dispatch-view (progress_put other v) now b task_id h =
    simp (lookup-insert_other task_id other v b.progress h) refl
dispatch-view (yield_put other seq v) now b task_id h =
    simp
      (lookup-insert_other task_id other (store_at seq v (buffer (lookup other b.buffers)))
        b.buffers h)
      refl
dispatch-view (throttle_check name) now b task_id h = ground arith
dispatch-view (submit _) now b task_id h = refl
dispatch-view (hb_get _) now b task_id h = refl
dispatch-view (hb_batch _) now b task_id h = refl
dispatch-view (is_cancelled _) now b task_id h = refl
dispatch-view (progress_get _) now b task_id h = refl
dispatch-view (yield_get _ _) now b task_id h = refl
dispatch-view (schedule_cancel _) now b task_id h = refl
dispatch-view (schedule_check _) now b task_id h = refl
dispatch-view (throttle_record _ _) now b task_id h = refl
dispatch-view (other_op _) now b task_id h = refl

-- Whatever is asked about other tasks, a task's result, heartbeat, progress, yields and cancellation
-- flag stay as they are.
pub tasks_are_isolated :
    (rs : List (Request × ℕ)) (b : Broker) (task_id : String)
    → AllApart task_id rs
    → view task_id (serve rs b) ≡ view task_id b
unfolding serve
tasks_are_isolated [] b task_id h = refl
tasks_are_isolated ((r, now) ∷ rs) b task_id (h, hs) =
    tasks_are_isolated rs (dispatch r now b).1 task_id hs ∙ dispatch-view r now b task_id h
