-- ===== src/Worker/Handle/Delivery.antt =====
-- The handle of offwork/worker/result.py and the worker of offwork/worker/remote.py together.
use offwork.Base.{
  ℕ, ◌+◌, String, ◌≡◌, ◌∙◌, refl, ◌⊎◌, inl, inr, Option, none, some, List, [], ◌∷◌, ==_refl,
  string_eq, Bool-cases,
}
use offwork.Base.Dict.{insert, lookup-insert}
use offwork.Core.Task.{Task}
use offwork.Core.Envelope.{JsonText}
use offwork.Worker.Broker.{cancel, Broker, dispatch, serve, add}
use offwork.Worker.Broker.Mailbox.{waiting, contains-add_self}
use offwork.Worker.Result.{ResultEnvelope, Raised}
use offwork.Worker.Backend.{Net, cancel_task}
use offwork.Worker.Remote.{Site, Life, execute_task}
use offwork.Worker.Remote.Recurrence.{IsHealthy, ask-healthy}
use offwork.Worker.Remote.Cancellation.{cancelled_never_runs}
use offwork.Worker.Handle.{
  Call, returned, threw, waits, Tick, timeout_error, reached, bounded, Slice, caught, get_result,
  confirm_loop,
}
use offwork.Worker.Handle.Waiting.{AllLeave, serve-waiting, try-healthy}

module _ (text : JsonText) (net : Net) (unreadable : Raised) (task_id : String)
    (up : IsHealthy net) where
  abbrev pub QuietTicks : List Tick → Type 0
  QuietTicks [] = Unit
  QuietTicks (tick ∷ ticks) = AllLeave task_id tick.meanwhile × QuietTicks ticks

  abbrev pub QuietSlices : List Slice → Type 0
  QuietSlices [] = Unit
  QuietSlices (s ∷ slices) = QuietTicks s.ticks × QuietSlices slices

  -- A poll that finds nothing gives nothing, and takes nothing.
  get_nothing :
      (deadline : Option ℕ) (ticks : List Tick) (b : Broker)
      → QuietTicks ticks
      → waiting b task_id ≡ none
      → let got = get_result text net unreadable task_id deadline ticks b in
        ((got.0 ≡ waits) ⊎ (got.0 ≡ threw (timeout_error task_id))) × (waiting got.1 task_id ≡ none)
  unfolding get_result
  get_nothing deadline [] b h free = (inl refl, free)
  get_nothing deadline (tick ∷ ticks) b (h, hs) free =
      let b₁ = serve tick.meanwhile b in
      let still : waiting b₁ task_id ≡ none = serve-waiting tick.meanwhile b task_id h ∙ free in
      let b₂ = record b₁ { results = insert task_id none b₁.results } in
      let after : waiting b₂ task_id ≡ none = simp (lookup-insert, ==_refl) refl in
      elim (Bool-cases (reached deadline tick.looked)) [
        | inl late ↦ rw (try-healthy net tick.asked task_id b₁ up, still, late) (inr refl, after)
        | inr early ↦
            rw (try-healthy net tick.asked task_id b₁ up, still, early)
              (get_nothing deadline ticks b₂ hs after)
      ]

  waits_on :
      (c : Call String)
      → (c ≡ waits) ⊎ (c ≡ threw (timeout_error task_id))
      → (caught c ≡ waits) ⊎ (caught c ≡ returned none)
  unfolding string_eq
  waits_on c (inl e) = rw e (inl refl)
  waits_on c (inr e) = rw e (inr refl)

  -- Without a result there is no confirmation.
  never_confirmed :
      (slices : List Slice) (held : Option ResultEnvelope) (b : Broker)
      → QuietSlices slices
      → waiting b task_id ≡ none
      → (confirm_loop text net unreadable task_id none slices (held, b)).0 ≡ waits
  unfolding confirm_loop
  never_confirmed [] held b h free = refl
  never_confirmed (s ∷ slices) held b (h, hs) free =
      let (ended, empty) =
        get_nothing (some (s.started + bounded 5000 none s.checked)) s.ticks b h free in
      let got =
        get_result text net unreadable task_id (some (s.started + bounded 5000 none s.checked))
          s.ticks b in
      elim (waits_on got.0 ended) [
        | inl e ↦ rw e refl
        | inr e ↦ rw e (never_confirmed slices held got.1 hs empty)
      ]

-- A client that cancels a task before a worker starts it, and waits without a timeout for the
-- confirmation, waits forever: over connections that lose nothing, if no result waits and no one
-- else sends one or takes one for the task, then the wait goes on to the end of the clock's
-- readings, however many.
pub early_cancel_is_unconfirmed :
    (site : Site) (life : Life) (task : Task) (net : Net) (unreadable : Raised) (start : ℕ)
    (slices : List Slice) (b : Broker)
    → (worker_up : IsHealthy site.net) → (client_up : IsHealthy net)
    → QuietSlices site.text net unreadable task.task_id client_up slices
    → waiting b task.task_id ≡ none
    → let signalled = (cancel_task net start task.task_id b).1 in
      let received = (execute_task site life task signalled).1 in
      (confirm_loop site.text net unreadable task.task_id none slices (none, received)).0 ≡ waits
early_cancel_is_unconfirmed site life task net unreadable start slices b worker_up client_up quiet
      free =
    let b₁ = record b { cancelled = add task.task_id b.cancelled } in
    let sent : (cancel_task net start task.task_id b).1 ≡ b₁ =
      unfold cancel_task dispatch in
      rw (ask-healthy net start (cancel task.task_id) b client_up) refl in
    let (skipped, _) =
      cancelled_never_runs site life task b₁ worker_up
        (contains-add_self task.task_id b.cancelled) in
    rw (sent, skipped)
      (never_confirmed site.text net unreadable task.task_id client_up slices none b₁ quiet free)
