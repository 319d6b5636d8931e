-- ===== src/Worker/Remote/Refusals.antt =====
-- Refused envelopes in `_handle_task` of offwork/worker/remote.py.
use offwork.Base.{ℕ, String, ◌≡◌, refl, inl, inr, Option, none, some}
use offwork.Core.Envelope.{Setting, Verifier, Rejection, rejected, verify_task_envelope}
use offwork.Worker.Broker.{result_put, Broker, dispatch}
use offwork.Worker.Result.{Raised, failure, to_json}
use offwork.Worker.Backend.{
  Answer, answer, broke, Link, fine, lost_request, lost_reply, call, ask, send_result, Answer-cases,
}
use offwork.Worker.Remote.{
  Site, Life, extract_task_id, send_envelope, answer_to, reject, handle_task,
}

-- The two brokers differ in the results only, and in what tells of them.
abbrev pub OnlyResults : (before after : Broker) → Type 0
OnlyResults b b' = b' ≡ record b { results = b'.results; result_subs = b'.result_subs }

posting :
    (l : Link) (task_id v : String) (now : ℕ) (b : Broker)
    → OnlyResults b (call l (result_put task_id v) now b).1
unfolding call dispatch
posting fine task_id v now b = refl
posting (lost_request exc) task_id v now b = refl
posting (lost_reply exc) task_id v now b = refl

answering :
    (site : Site) (now : ℕ) (exc : Raised) (b : Broker) (id : Answer (Option String))
    → OnlyResults b (answer_to site now exc id b).1
unfolding send_envelope
answering site now exc b (answer none) = refl
answering site now exc b (broke crash) = refl
answering site now exc b (answer (some task_id)) =
    let v = site.text.dumps (to_json (failure task_id exc)) in
    let posted = posting (site.net (result_put task_id v) now) task_id v now b in
    unfold send_result ask in
    elim (Answer-cases
      (call (site.net (result_put task_id v) now) (result_put task_id v) now b).0) [
        | inl (_, e) ↦ rw e posted
        | inr (_, e) ↦ rw e posted
      ]

-- A worker that verifies signatures does nothing for a task whose envelope is refused but answer it:
-- over any connection, and whatever the text, the broker keeps its queue of tasks, its heartbeats,
-- cancellations, schedules, cooldowns, progress and streams.
pub rejected_runs_nothing :
    (site : Site) (g : Setting) (t clock : ℕ) (life : Life) (task_json : String) (v : Verifier)
    (b : Broker) (reason : Rejection)
    → site.signing ≡ some g
    → (verify_task_envelope g task_json t clock v).0 ≡ rejected reason
    → OnlyResults b (handle_task site t clock life task_json v b).0.1
unfolding handle_task reject send_envelope extract_task_id
rejected_runs_nothing site g t clock life task_json v b reason on refused =
    rw (on, refused)
      (answering site life.started (site.describe reason) b
        (extract_task_id site (site.text.loads task_json)))
