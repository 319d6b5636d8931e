-- ===== src/Examples/Worker.antt =====
-- A broker that serves a stream and other tasks, and runs under a retry policy.
use offwork.Base.{
  ℕ, zero, suc, ◌≡◌, ◌≢◌, refl, ap, ◌==◌, String, true, false, Option, none, some, List, [], ◌∷◌,
  string_eq, length,
}
use offwork.Base.Dict.{lookup, insert}
use offwork.Worker.Broker.{
  Request, hb_put, cancel, submit, new_broker, dispatch, store_at, entries_from,
}
use offwork.Worker.Broker.Mailbox.{waiting}
use offwork.Worker.Stream.{
  Terminal, polling, finished, new_client, World, Event, produce, finish, ask, wake, happen,
  happen_all, resume, deliver,
}
use offwork.Worker.Stream.Order.{
  Ordered, AllAllowed, stream_in_order, poll_catches_up, finished_is_complete,
}
use offwork.Worker.Result.Outcome.{Report, failed}
use offwork.Worker.Policy.{Attempt, returned, run_with_policy}
use offwork.Worker.Policy.Attempts.{Tried, policy_attempts}
use offwork.Base.{leb, ◌+◌, ◌≤◌}
use offwork.Worker.Broker.{
  result_put, result_try, is_cancelled, throttle_check, throttle_record, text, verdict, serve,
}
use offwork.Worker.Broker.Mailbox.{first_result_wins, cancel_is_permanent, throttle_window}
use offwork.Worker.Broker.Frame.{view, tasks_are_isolated}
use offwork.Core.Values
use offwork.Worker.Result.Outcome.{envelope, succeeded}

nothing_waits : waiting new_broker "t" ≡ none
unfolding lookup
nothing_waits = refl

abbrev chatter : List (Request × ℕ)
chatter = (submit "{}", 2) ∷ (hb_put "u" 3, 3) ∷ (cancel "u", 4) ∷ []

t_is_not_u : ◌≢◌ {A = String} "t" "u"
unfolding string_eq
t_is_not_u = λ e. let p : false ≡ true = ap (λ (s : String). s == "u") e in cc p

abbrev crash : Report
crash = failed (record { type_name = "ValueError"; message = "bad"; traceback = "Traceback" })

-- The first two attempts fail.
abbrev flaky : ℕ → Attempt ℕ String
flaky zero = Attempt.failed "busy"
flaky (suc zero) = Attempt.failed "busy"
flaky _ = returned 7

policy_attempts_example : (n : ℕ) × Tried flaky 1000 3 0 n (run_with_policy flaky 1000 3)
policy_attempts_example = policy_attempts flaky 1000 3

-- A text that is a result envelope says how many values were yielded.
abbrev reader : String → Option Terminal
reader raw = some (record { status = "ok"; stream_yields = some 2 })

abbrev quiet : World
quiet = record { broker = new_broker; seq = 0; sent = []; client = new_client }

quiet_is_Ordered : Ordered "t" quiet
unfolding lookup
quiet_is_Ordered = record {
  seq_counts = refl;
  buffered = refl;
  texts = tt;
  rest = [];
  in_order = refl;
  counted = refl;
  no_gap = tt;
  complete = tt;
}

abbrev history : List (Event × ℕ)
history =
    (produce "1", 1)
    ∷ (wake, 2)
    ∷ (ask (cancel "u"), 3)
    ∷ (produce "2", 4)
    ∷ (finish "{}", 5)
    ∷ (wake, 6)
    ∷ (wake, 7)
    ∷ (wake, 8)
    ∷ (wake, 9)
    ∷ []

one_is_text : ◌≢◌ {A = String} "1" ""
one_is_text = λ e. cc e

two_is_text : ◌≢◌ {A = String} "2" ""
two_is_text = λ e. cc e

allowed : AllAllowed "t" history
allowed = (one_is_text, (tt, (t_is_not_u, (two_is_text, (tt, (tt, (tt, (tt, (tt, tt)))))))))

stream_in_order_example : Ordered "t" (happen_all reader "t" history quiet)
stream_in_order_example = stream_in_order reader "t" history quiet allowed quiet_is_Ordered

abbrev first_value : List (Event × ℕ)
first_value = (produce "1", 1) ∷ []

abbrev after_first : World
after_first = happen_all reader "t" first_value quiet

still_polling : after_first.client.phase ≡ polling
unfolding happen happen_all
still_polling = refl

poll_catches_up_example : (happen reader "t" 2 wake after_first).client.delivered ≡ after_first.sent
poll_catches_up_example =
    poll_catches_up reader "t" 2 after_first
      (stream_in_order reader "t" first_value quiet (one_is_text, tt) quiet_is_Ordered)
      still_polling

abbrev at_the_end : World
at_the_end = happen_all reader "t" history quiet

has_finished : at_the_end.client.phase ≡ finished
unfolding happen happen_all resume dispatch deliver store_at entries_from lookup insert string_eq
has_finished = refl

final_count : at_the_end.client.envelope ≡ some (record { status = "ok"; stream_yields = some 2 })
unfolding happen happen_all resume dispatch deliver store_at entries_from lookup insert string_eq
final_count = refl

sent_two : some 2 ≡ some (length at_the_end.sent)
unfolding happen happen_all
sent_two = refl

finished_is_complete_example : at_the_end.client.delivered ≡ at_the_end.sent
finished_is_complete_example =
    finished_is_complete reader "t" history new_broker
      (record { status = "ok"; stream_yields = some 2 }) allowed (unfold lookup in refl)
      has_finished final_count sent_two

first_result_wins_example :
    let b₂ = serve ((result_put "t" "one", 1) ∷ (result_put "t" "two", 2) ∷ []) new_broker in
    ((dispatch (result_try "t") 3 b₂).0 ≡ text (some "one"))
    × ((dispatch (result_try "t") 4 (dispatch (result_try "t") 3 b₂).1).0 ≡ text none)
first_result_wins_example = first_result_wins new_broker "t" "one" "two" 1 2 3 4 nothing_waits

cancel_is_permanent_example :
    (dispatch (is_cancelled "t") 9 (serve ((cancel "t", 1) ∷ chatter) new_broker)).0 ≡ verdict true
cancel_is_permanent_example = cancel_is_permanent new_broker "t" chatter 1 9

throttle_window_example :
    let b' = (dispatch (throttle_record "f" 500) 100 new_broker).1 in
    ((dispatch (throttle_check "f") 400 b').0 ≡ verdict (leb (100 + 500) 400))
    × (100 + 500 ≤ 400 → lookup "f" (dispatch (throttle_check "f") 400 b').1.throttles ≡ none)
    × (◌≢◌ {A = String} "g" "f"
        → (dispatch (throttle_check "g") 400 b').0
          ≡ (dispatch (throttle_check "g") 400 new_broker).0)
throttle_window_example = throttle_window new_broker "f" "g" 500 100 400

tasks_are_isolated_example : view "t" (serve chatter new_broker) ≡ view "t" new_broker
tasks_are_isolated_example =
    tasks_are_isolated chatter new_broker "t" (tt, (t_is_not_u, (t_is_not_u, tt)))

abbrev one_tuple : Report
one_tuple = succeeded (
    offwork.Core.Values.tuple
      (offwork.Core.Values.more (offwork.Core.Values.number 5) offwork.Core.Values.nothing))
