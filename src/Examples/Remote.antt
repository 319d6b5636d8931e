-- ===== src/Examples/Remote.antt =====
-- A worker that answers tasks, with a connection that loses nothing, and the client that waits.
use offwork.Base.{ℕ, ◌+◌, ◌≡◌, refl, true, false, none, some, List, [], ◌∷◌, arith, string_eq}
use offwork.Base.Dict.{lookup}
use offwork.Core.Values.{number}
use offwork.Core.Values.RoundTrip.{received}
use offwork.Core.Json.{dict, nil, end}
use offwork.Core.Task.{Task}
use offwork.Core.Clients.{empty_registry}
use offwork.Core.Nonces.{fresh_lru}
use offwork.Core.Envelope.{
  JsonText, Setting, Verifier, rejected, invalid_json, verify_task_envelope, check_json,
}
use offwork.Worker.Broker.{Broker, new_broker, cooling}
use offwork.Worker.Broker.Mailbox.{waiting}
use offwork.Worker.Result.{Raised, value, success, to_json}
use offwork.Worker.Backend.{Answer, answer, Net, fine}
use offwork.Worker.Remote.{Site, Moment, emits, reports, Ending, Life, exhausted_at, execute_task}
use offwork.Worker.Remote.Recurrence.{occurrences}
use offwork.Worker.Remote.Cancellation.{throttled_ends_schedule}
use offwork.Worker.Handle.{waits, Slice, confirm_loop}
use offwork.Worker.Handle.Waiting.{Lasts}
use offwork.Worker.Handle.Delivery.{early_cancel_is_unconfirmed}
use offwork.Worker.Backend

abbrev whole : Net
whole = λ _ _. fine

abbrev oops : Raised
oops = record { type_name = "ValueError"; message = "bad"; traceback = "" }

-- The only text that is read is that of the value 5.
abbrev plain : JsonText
plain = record {
  loads = λ _. some (dict (to_json (success "t" (number 5))));
  dumps = λ _. "{}";
  dumps_sorted = λ _. "{}";
}

abbrev site : Site
site = record {
  text = plain;
  net = whole;
  signing = none;
  client_id = "worker";
  seed = [];
  public_key = [];
  describe = λ _. oops;
  unreadable = oops;
  bad_seed = oops;
}

abbrev chore : Task
chore = record {
  graph_json = "{}";
  function_name = "f";
  args = nil;
  kwargs = end;
  task_id = "t";
  timeout = none;
  retries = 0;
  retry_delay = 1000;
  scheduled_at = some 1000;
  recur_interval = some 50;
  recur_deadline = some 1200;
  recur_remaining = some 2;
  schedule_id = some "s";
  throttle = some 10;
  storage = false;
}

abbrev moments : List Moment
moments = emits "1" 1001 ∷ reports "half" 1002 ∷ []

abbrev life : Life
life = record {
  started = 1000;
  streaming = answer false;
  during = moments;
  ending = Ending.value (answer (number 5));
  ended = 1010;
  fresh_id = "t2";
  nonce = "n";
}

free : waiting new_broker "t" ≡ none
unfolding lookup
free = refl

twice : occurrences (life ∷ record life { started = 1070; ended = 1080 } ∷ []) 50 chore ≡ 2
unfolding occurrences exhausted_at
twice = refl

abbrev with_flag : Broker
with_flag = record new_broker { cancelled = "t" ∷ [] }

no_buffer : lookup "t" new_broker.buffers ≡ none
unfolding lookup
no_buffer = refl

abbrev hot : Broker
hot = record new_broker { throttles = ("f", 2000) ∷ [] }

cools : cooling 1000 (lookup "f" hot.throttles) ≡ true
unfolding lookup string_eq
cools = refl

throttled_ends_schedule_example :
    let b' = (execute_task site life chore hot).1 in
    (b'.tasks ≡ []) × (b'.cancelled_schedules ≡ []) × (waiting b' "t" ≡ some "{}")
throttled_ends_schedule_example =
    throttled_ends_schedule site life chore 10 hot (λ _ _. refl) refl refl cools free

abbrev careful : Setting
careful = record {
  crypto = record { sha512 = λ _. []; hmac_sha256 = λ _ _. []; utf8 = λ _. [] };
  scheme = record { sign = λ _ _. none; verify = λ _ _ _. true };
  text = record { loads = λ _. none; dumps = λ _. ""; dumps_sorted = λ _. "" };
  root_token = [];
  clock_skew = 300;
}

abbrev gate : Verifier
gate = record { clients = empty_registry; nonces = fresh_lru 600 5 }

refused : (verify_task_envelope careful "junk" 1000 1000 gate).0 ≡ rejected invalid_json
unfolding verify_task_envelope check_json
refused = refl

abbrev slice : ℕ → Slice
slice at = record {
  checked = at;
  started = at;
  ticks = record { meanwhile = []; asked = at; looked = at + 5000 } ∷ [];
  meanwhile = [];
  beat_at = at;
  looked = at + 5000;
}

long : (n : ℕ) → Lasts plain whole oops "t" (slice n)
long n = ([], record { meanwhile = []; asked = n; looked = n + 5000 }, [], refl, omega arith)

early_cancel_is_unconfirmed_example :
    let signalled = (Backend.cancel_task whole 1000 "t" new_broker).1 in
    let received = (execute_task site life chore signalled).1 in
    (confirm_loop plain whole oops "t" none (slice 1000 ∷ slice 6000 ∷ []) (none, received)).0
    ≡ waits
early_cancel_is_unconfirmed_example =
    early_cancel_is_unconfirmed site life chore whole oops 1000 (slice 1000 ∷ slice 6000 ∷ [])
      new_broker (λ _ _. refl) (λ _ _. refl) ((tt, tt), ((tt, tt), tt)) free
