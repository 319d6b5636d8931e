-- ===== src/Worker/Handle/Waiting.antt =====
-- Waiting for a result, and for the confirmation of a cancellation, in `Result` of
-- offwork/worker/result.py.
use offwork.Base.{
  ℕ, zero, suc, ◌+◌, ◌≤◌, String, ◌≡◌, ◌≢◌, ◌∙◌, refl, inl, inr, Bool, true, false, Option, none,
  some, List, [], ◌∷◌, ◌++◌, arith, leb, ◌==◌, string_eq, Bool-cases,
}
use offwork.Base.Dict.{insert}
use offwork.Core.Envelope.{JsonText}
use offwork.Worker.Broker.{Request, result_try, Broker, dispatch, serve}
use offwork.Worker.Broker.Mailbox.{waiting}
use offwork.Worker.Result.{ResultEnvelope, Raised, cancelled, to_json}
use offwork.Worker.Backend
use offwork.Worker.Backend.{Answer, answer, broke, Net, ask, try_get_result, Answer-cases}
use offwork.Worker.Remote.Quiet.{Leaves, dispatch-waiting}
use offwork.Worker.Remote.Recurrence.{IsHealthy, ask-healthy}
use offwork.Worker.Handle.{
  Call, returned, threw, waits, Tick, reached, after_try, bounded, Slice, caught, get_result,
  read_envelope, State, confirmed_by, after_wait, seed, confirm_loop, do_cancel,
}

-- What others ask leaves the result of the task alone.
abbrev pub AllLeave : String → List (Request × ℕ) → Type 0
AllLeave task_id [] = Unit
AllLeave task_id ((r, now) ∷ rest) = Leaves task_id r × AllLeave task_id rest

pub serve-waiting :
    (rs : List (Request × ℕ)) (b : Broker) (task_id : String)
    → AllLeave task_id rs
    → waiting (serve rs b) task_id ≡ waiting b task_id
unfolding serve
serve-waiting [] b task_id h = refl
serve-waiting ((r, now) ∷ rest) b task_id (h, hs) =
    serve-waiting rest (dispatch r now b).1 task_id hs ∙ dispatch-waiting r now b task_id h

pub try-healthy :
    (net : Net) (now : ℕ) (task_id : String) (b : Broker)
    → IsHealthy net
    → try_get_result net now task_id b
      ≡ (answer (waiting b task_id), record b { results = insert task_id none b.results })
unfolding try_get_result dispatch
try-healthy net now task_id b up = rw (ask-healthy net now (result_try task_id) b up) refl

module _ (text : JsonText) (net : Net) (unreadable : Raised) (task_id : String) where
  ends_here :
      (deadline : ℕ) (tick : Tick) (raw : Answer (Option String)) (b : Broker)
      (rest : Call String × Broker)
      → reached (some deadline) tick.looked ≡ true
      → (after_try task_id raw (reached (some deadline) tick.looked) b rest).0 ≢ waits
  ends_here deadline tick (broke exc) b rest late = λ e. cc e
  ends_here deadline tick (answer (some raw)) b rest late = λ e. cc e
  ends_here deadline tick (answer none) b rest late = rw late (λ e. cc e)

  ends_or :
      (late : Bool) (raw : Answer (Option String)) (b : Broker) (rest : Call String × Broker)
      → rest.0 ≢ waits
      → (after_try task_id raw late b rest).0 ≢ waits
  ends_or late (broke exc) b rest h = λ e. cc e
  ends_or late (answer (some raw)) b rest h = λ e. cc e
  ends_or true (answer none) b rest h = λ e. cc e
  ends_or false (answer none) b rest h = h

  -- A wait with a deadline ends by the first look at the clock that finds it passed, over any
  -- connection and whatever others ask.
  pub get_result_ends :
      (deadline : ℕ) (before after : List Tick) (tick : Tick) (b : Broker)
      → deadline ≤ tick.looked
      → (get_result text net unreadable task_id (some deadline) (before ++ tick ∷ after) b).0
        ≢ waits
  unfolding get_result
  get_result_ends deadline [] after tick b h =
      let got = try_get_result net tick.asked task_id (serve tick.meanwhile b) in
      ends_here deadline tick got.0 got.1
        (get_result text net unreadable task_id (some deadline) after got.1) (ground (arith, h))
  get_result_ends deadline (t ∷ before) after tick b h =
      let got = try_get_result net t.asked task_id (serve t.meanwhile b) in
      ends_or (reached (some deadline) t.looked) got.0 got.1
        (get_result text net unreadable task_id (some deadline) (before ++ tick ∷ after) got.1)
        (get_result_ends deadline before after tick got.1 h)

  -- The ticks of a slice go on for its five seconds.
  abbrev pub Lasts : Slice → Type 0
  Lasts slice =
      (before : List Tick) × (tick : Tick) × (after : List Tick) × (slice.ticks
        ≡ before ++ tick ∷ after)
      × (slice.started + 5000 ≤ tick.looked)

  abbrev pub AllLast : List Slice → Type 0
  AllLast [] = Unit
  AllLast (slice ∷ rest) = Lasts slice × AllLast rest

  bounded_least : (n : ℕ) (deadline : Option ℕ) (now : ℕ) → bounded n deadline now ≤ n
  bounded_least n none now = omega arith
  bounded_least n (some d) now = ground arith

  caught_ends : (c : Call String) → c ≢ waits → caught c ≢ waits
  caught_ends (returned raw) h = λ e. cc e
  caught_ends (threw exc) h = elim (Bool-cases (exc.type_name == "TimeoutError")) [
    | inl t ↦ rw t (λ e. cc e)
    | inr f ↦ rw f (λ e. cc e)
  ]
  caught_ends waits h = absurd (h refl)

  slice_ends :
      (deadline : Option ℕ) (slice : Slice) (b : Broker)
      → Lasts slice
      → (get_result text net unreadable task_id
          (some (slice.started + bounded 5000 deadline slice.checked))
          slice.ticks
          b).0
        ≢ waits
  slice_ends deadline slice b (before, tick, after, e, late) = rw e (
      get_result_ends (slice.started + bounded 5000 deadline slice.checked) before after tick b
        (omega (arith, late, bounded_least 5000 deadline slice.checked)))

  confirmed_ends :
      (e held : Option ResultEnvelope) (b : Broker)
      → (confirmed_by text net unreadable task_id e held b).0 ≢ waits
  confirmed_ends (some e) held b = λ p. cc p
  confirmed_ends none held b = λ p. cc p

  after_wait-ends :
      (c : Call (Option String)) (held : Option ResultEnvelope) (b : Broker)
      (rest : Call Bool × State)
      → c ≢ waits
      → rest.0 ≢ waits
      → (after_wait text net unreadable task_id c held b rest).0 ≢ waits
  after_wait-ends (returned none) held b rest h k = k
  after_wait-ends (returned (some raw)) held b rest h k =
      confirmed_ends (read_envelope text net unreadable task_id raw) held b
  after_wait-ends (threw exc) held b rest h k = λ e. cc e
  after_wait-ends waits held b rest h k = absurd (h refl)

  seed-ends :
      (now : ℕ) (confirmed : Bool) (s : State)
      → (seed text net unreadable task_id now confirmed s).0 ≢ waits
  unfolding seed
  seed-ends now confirmed (held, b) =
      let sent = Backend.send_result net now task_id (text.dumps (to_json (cancelled task_id))) b in
      elim (Answer-cases sent.0) [ inl (_, e) ↦ rw e (λ p. cc p) | inr (_, e) ↦ rw e (λ p. cc p) ]

  confirm_ends :
      (deadline : ℕ) (before after : List Slice) (last : Slice) (s : State)
      → AllLast before
      → deadline ≤ last.checked
      → (confirm_loop text net unreadable task_id (some deadline) (before ++ last ∷ after) s).0
        ≢ waits
  unfolding confirm_loop
  confirm_ends deadline [] after last (held, b) lasting late =
      let over : leb deadline last.checked ≡ true = ground (arith, late) in
      rw over (seed-ends last.checked false (held, b))
  confirm_ends deadline (slice ∷ before) after last (held, b) (long, lasting) late =
      let wait_for = bounded 5000 (some deadline) slice.checked in
      let got =
        get_result text net unreadable task_id (some (slice.started + wait_for)) slice.ticks b in
      elim (Bool-cases (leb deadline slice.checked)) [
        | inl e ↦ rw e (seed-ends slice.checked false (held, b))
        | inr e ↦ rw e (
            after_wait-ends (caught got.0) held got.1
              (confirm_loop text net unreadable task_id (some deadline) (before ++ last ∷ after)
                (held, got.1))
              (caught_ends got.0 (slice_ends (some deadline) slice b long))
              (confirm_ends deadline before after last (held, got.1) lasting late))
      ]

  -- Cancelling with a timeout ends, over any connection and whatever the worker does: if the clock goes
  -- on through the slices of five seconds, then by the first slice that finds the timeout passed the
  -- call has returned or raised.
  pub cancel_ends :
      (timeout start : ℕ) (before after : List Slice) (last : Slice) (s : State)
      → AllLast before
      → start + timeout ≤ last.checked
      → (do_cancel text net unreadable task_id (some timeout) start (before ++ last ∷ after) s).0
        ≢ waits
  unfolding do_cancel
  cancel_ends zero start before after last (held, b) lasting late =
      let sent = Backend.cancel_task net start task_id b in
      elim (Answer-cases sent.0) [
        | inl (_, e) ↦ rw e (seed-ends start true (held, sent.1))
        | inr (_, e) ↦ rw e (λ p. cc p)
      ]
  cancel_ends (suc n) start before after last (held, b) lasting late =
      let sent = Backend.cancel_task net start task_id b in
      elim (Answer-cases sent.0) [
        | inl (_, e) ↦
            rw e (confirm_ends (start + suc n) before after last (held, sent.1) lasting late)
        | inr (_, e) ↦ rw e (λ p. cc p)
      ]
