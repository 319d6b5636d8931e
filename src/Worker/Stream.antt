-- ===== src/Worker/Stream.antt =====
-- `Stream._stream` of offwork/worker/result.py, which reads a task's yields from the broker of
-- offwork/worker/backends/local.py, and the worker's side: `Worker.run_stream` of
-- offwork/worker/worker.py numbers the yields. A client has a phase for each `await` of its loop, so
-- that other requests come between. A value is delivered as its JSON text.
pub mod Order
use offwork.Base.{
  ℕ, suc, ◌+◌, String, Bool, true, false, Option, none, some, List, [], ◌∷◌, ◌++◌, ltb, leb, ◌=ℕ◌,
  ◌==◌, string_eq, if◌then◌else◌,
}
use offwork.Worker.Broker.{
  Request, result_put, result_try, yield_put, yield_get, Reply, text, yields, Broker, dispatch,
}

-- Of a `ResultEnvelope`: its status and `stream_yields`.
pub record Terminal : Type 0 where
  pub status : String
  pub stream_yields : Option ℕ

-- What the loop does next. `gap` is the RuntimeError, `raised` what `_unwrap` raises, `unreadable` a
-- result that `from_json` does not take.
pub data Phase : Type 0 where
  polling : Phase
  checking : Phase
  draining : Phase
  finished : Phase
  raised : (status : String) → Phase
  gap : (expected got : ℕ) → Phase
  unreadable : Phase

pub record Client : Type 0 where
  pub next_seq : ℕ
  pub delivered : List String
  pub envelope : Option Terminal
  pub phase : Phase

abbrev pub new_client : Client
new_client = record { next_seq = 0; delivered = []; envelope = none; phase = polling }

-- The `for` loop over one batch.
unfoldable pub deliver : List (ℕ × String) → Client → Client
deliver [] c = c
deliver ((seq, value) ∷ batch) c =
    let skipped = deliver batch c in
    let taken =
      deliver batch
        (record c { next_seq = suc c.next_seq; delivered = c.delivered ++ value ∷ [] }) in
    if ltb seq c.next_seq
    then skipped
    else if seq =ℕ c.next_seq
    then taken
    else record c { phase = gap c.next_seq seq }

-- `data` of the answer to `yield_get`, and to `result_try`.
abbrev pub batch_of : Reply → List (ℕ × String)
batch_of (yields batch) = batch
batch_of _ = []

abbrev pub raw_of : Reply → Option String
raw_of (text raw) = raw
raw_of _ = none

-- `if yields: continue`, or else on to the terminal envelope.
abbrev pub after_batch : List (ℕ × String) → Client → Client
after_batch (_ ∷ _) c = c
after_batch [] c = elim c.envelope [
  | none ↦ record c { phase = checking }
  | some _ ↦ record c { phase = draining }
]

abbrev pub after_check : (String → Option Terminal) → Option String → Client → Client
after_check from_json none c = record c { phase = polling }
after_check from_json (some raw) c = elim (from_json raw) [
  | none ↦ record c { phase = unreadable }
  | some envelope ↦ record c { envelope = some envelope; phase = draining }
]

-- `final is None or next_seq >= final`
abbrev pub drained : ℕ → Option ℕ → Bool
drained next_seq none = true
drained next_seq (some final) = leb final next_seq

-- `_drain_terminal`: `_unwrap` returns for a status that it does not know.
abbrev pub drain_terminal : Terminal → Phase
drain_terminal envelope =
    if envelope.status == "cancelled"
    then raised envelope.status
    else if envelope.status == "throttled"
    then raised envelope.status
    else if envelope.status == "error"
    then raised envelope.status
    else finished

abbrev pub after_tail : List (ℕ × String) → Client → Client
after_tail (_ ∷ _) c = record c { phase = polling }
after_tail [] c = elim c.envelope [
  | none ↦ record c { phase = polling }
  | some envelope ↦
      if drained c.next_seq envelope.stream_yields
      then record c { phase = drain_terminal envelope }
      else record c { phase = polling }
]

-- One request of the client and what it does with the answer.
unfoldable pub resume : (String → Option Terminal) → String → ℕ → Broker → Client → Broker × Client
unfolding deliver
resume from_json task_id now b c = elim c.phase [
  | polling ↦
      let (reply, b') = dispatch (yield_get task_id c.next_seq) now b in
      (b', after_batch (batch_of reply) (deliver (batch_of reply) c))
  | checking ↦
      let (reply, b') = dispatch (result_try task_id) now b in
      (b', after_check from_json (raw_of reply) c)
  | draining ↦
      let (reply, b') = dispatch (yield_get task_id c.next_seq) now b in
      (b', after_tail (batch_of reply) c)
  | finished ↦ (b, c)
  | raised _ ↦ (b, c)
  | gap _ _ ↦ (b, c)
  | unreadable ↦ (b, c)
]

-- The broker, the worker's counter `seq` with what it has sent, and the client.
pub record World : Type 0 where
  pub broker : Broker
  pub seq : ℕ
  pub sent : List String
  pub client : Client

pub data Event : Type 0 where
  produce : (value : String) → Event
  finish : (raw : String) → Event
  ask : (request : Request) → Event
  wake : Event

-- `produce` is `on_yield(seq, value)` and `seq += 1` of `run_stream`; `finish` is the arrival of the
-- task's result, `ask` a request of anybody else, and `wake` a step of the client.
unfoldable pub happen : (String → Option Terminal) → String → ℕ → Event → World → World
happen from_json task_id now (produce value) w = record w {
  broker = (dispatch (yield_put task_id w.seq value) now w.broker).1;
  seq = suc w.seq;
  sent = w.sent ++ value ∷ [];
}
happen from_json task_id now (finish raw) w = record w {
  broker = (dispatch (result_put task_id raw) now w.broker).1;
}
happen from_json task_id now (ask request) w = record w {
  broker = (dispatch request now w.broker).1;
}
happen from_json task_id now wake w =
    let (b, c) = resume from_json task_id now w.broker w.client in
    record w { broker = b; client = c }

unfoldable pub happen_all : (String → Option Terminal) → String → List (Event × ℕ) → World → World
unfolding happen
happen_all from_json task_id [] w = w
happen_all from_json task_id ((event, now) ∷ rest) w =
    happen_all from_json task_id rest (happen from_json task_id now event w)
