-- ===== src/Core/Pairing.antt =====
-- offwork/core/pairing.py: the keys and messages of a pairing, and its two sides, which exchange
-- messages through the progress channel of the local backend. A phase lasts from one request to the
-- next, so that the other side comes between.
pub mod Channels
pub mod Invariant
pub mod Agreement
pub mod Leftovers
use offwork.Base.{
  ℕ, String, ◌<>◌, Bool, true, false, Option, none, some, List, [], ◌∷◌, ◌++◌, ltb, ◌==◌, string_eq,
  if◌then◌else◌,
}
use offwork.Core.Bytes.{Bytes, Crypto, codes, hex, fromhex, same_bytes}
use offwork.Core.Json.{Json, str, dict, Fields, end, field, get_field}
use offwork.Core.Envelope.{JsonText}
use offwork.Worker.Broker.{Request, Broker, dispatch}
use offwork.Worker.Result.{Raised}
use offwork.Worker.Backend.{Answer, answer, broke, Net, send_progress, get_progress}

-- What a parser does: it returns, raises a ValueError, or raises something else, as a dict without
-- the key does.
pub data Parsed {ℓ} (A : Type ℓ) : Type ℓ where
  parsed : A → Parsed A
  value_error : Parsed A
  uncaught : Parsed A

module _ (crypto : Crypto) where
  open crypto use {hmac_sha256, utf8}

  unfoldable pub derive_intermediate : String → Bytes
  derive_intermediate pin = hmac_sha256 (utf8 "offwork-pairing-v1") (utf8 pin)

  unfoldable pub compute_response : (intermediate challenge : Bytes) → Bytes
  compute_response intermediate challenge = hmac_sha256 intermediate challenge

  unfoldable pub verify_response : (intermediate challenge response : Bytes) → Bool
  verify_response intermediate challenge response =
      same_bytes (compute_response intermediate challenge) response

  unfoldable pub derive_shared_secret : (intermediate challenge : Bytes) → Bytes
  derive_shared_secret intermediate challenge =
      hmac_sha256 intermediate (challenge ++ utf8 "confirmed")

abbrev pub challenge_message : Bytes → Fields
challenge_message challenge =
    field "type" (str "pairing_challenge") (field "challenge" (str (hex challenge)) end)

abbrev pub response_message : Bytes → Fields
response_message response =
    field "type" (str "pairing_response") (field "response" (str (hex response)) end)

abbrev pub confirm_message : Fields
confirm_message = field "type" (str "pairing_confirmed") end

abbrev read_bytes : Option Bytes → Parsed Bytes
read_bytes none = value_error
read_bytes (some bs) = parsed bs

-- `_decode_bytes(data[key])`
unfoldable pub decode_bytes : Option Json → Parsed Bytes
decode_bytes (some (str s)) = read_bytes (fromhex (codes s))
decode_bytes _ = uncaught

-- `data.get("type") == kind`
unfoldable pub has_type : String → Option Json → Bool
has_type kind (some (str s)) = s == kind
has_type kind _ = false

module _ (text : JsonText) where
  -- A parser loads the text, checks the type, and reads on.
  abbrev parse_as : {A : Type 0} → String → (Fields → Parsed A) → Option Json → Parsed A
  parse_as kind read none = value_error
  parse_as kind read (some (dict fs)) =
      if has_type kind (get_field "type" fs) then read fs else value_error
  parse_as kind read (some _) = uncaught

  unfoldable pub parse_challenge : String → Parsed Bytes
  parse_challenge msg =
      parse_as "pairing_challenge" (λ fs. decode_bytes (get_field "challenge" fs)) (text.loads msg)

  unfoldable pub parse_response : String → Parsed Bytes
  parse_response msg =
      parse_as "pairing_response" (λ fs. decode_bytes (get_field "response" fs)) (text.loads msg)

  unfoldable pub parse_confirm : String → Parsed (Unit {0})
  parse_confirm msg = parse_as "pairing_confirmed" (λ _. parsed tt) (text.loads msg)

-- `_PAIRING_CHANNEL` and its two companions.
abbrev pub channel : String
channel = "offwork:pairing"

abbrev pub response_channel : String
response_channel = "offwork:pairing:response"

abbrev pub confirm_channel : String
confirm_channel = "offwork:pairing:confirm"

-- `crashed` is any exception other than PairingError.
pub data Initiator : Type 0 where
  announcing : Initiator
  awaiting_response : Initiator
  confirming : (shared : Bytes) → Initiator
  paired_with_client : (shared : Bytes) → Initiator
  pin_mismatch : Initiator
  no_response : Initiator
  initiator_crashed : Initiator

pub data Responder : Type 0 where
  seeking : Responder
  answering : (challenge : Bytes) → Responder
  awaiting_confirm : (challenge : Bytes) → Responder
  paired_with_worker : (shared : Bytes) → Responder
  no_challenge : Responder
  not_confirmed : Responder
  responder_crashed : Responder

-- One side's PIN and clock limit; the challenge is the initiator's random choice.
pub record Session : Type 0 where
  pub crypto : Crypto
  pub text : JsonText
  pub net : Net
  pub challenge : Bytes
  pub initiator_pin : String
  pub responder_pin : String
  pub initiator_deadline : ℕ
  pub responder_deadline : ℕ

pub record World : Type 0 where
  pub initiator : Initiator
  pub responder : Responder
  pub broker : Broker

-- A step of a side at a time of its clock, or a request of someone else.
pub data Event : Type 0 where
  initiate : (now : ℕ) → Event
  respond : (now : ℕ) → Event
  elsewhere : (r : Request) (now : ℕ) → Event

module _ (g : Session) where
  open g use {crypto, text, net, challenge}

  abbrev pub initiator_secret : Bytes
  initiator_secret = derive_intermediate crypto g.initiator_pin

  abbrev pub responder_secret : Bytes
  responder_secret = derive_intermediate crypto g.responder_pin

  -- What the initiator does with an answer on the response channel.
  abbrev pub check_response : Parsed Bytes → Initiator
  check_response (parsed response) =
      if verify_response crypto initiator_secret challenge response
      then confirming (derive_shared_secret crypto initiator_secret challenge)
      else pin_mismatch
  check_response value_error = awaiting_response
  check_response uncaught = initiator_crashed

  abbrev pub read_response : Answer (Option String) → Initiator
  read_response (broke exc) = initiator_crashed
  read_response (answer none) = awaiting_response
  read_response (answer (some raw)) = check_response (parse_response text raw)

  abbrev pub sent_or : {A : Type 0} → A → A → Answer (Unit {0}) → A
  sent_or next failed (answer _) = next
  sent_or next failed (broke exc) = failed

  -- `initiate_pairing`
  unfoldable pub step_initiator : ℕ → Initiator → Broker → Initiator × Broker
  step_initiator now announcing b =
      let (sent, b') = send_progress net now channel (text.dumps (challenge_message challenge)) b in
      (sent_or awaiting_response initiator_crashed sent, b')
  step_initiator now awaiting_response b =
      let (raw, b') = get_progress net now response_channel b in
      if ltb now g.initiator_deadline then (read_response raw, b') else (no_response, b)
  step_initiator now (confirming shared) b =
      let (sent, b') = send_progress net now confirm_channel (text.dumps confirm_message) b in
      (sent_or (paired_with_client shared) initiator_crashed sent, b')
  step_initiator now (paired_with_client shared) b = (paired_with_client shared, b)
  step_initiator now pin_mismatch b = (pin_mismatch, b)
  step_initiator now no_response b = (no_response, b)
  step_initiator now initiator_crashed b = (initiator_crashed, b)

  abbrev pub take_challenge : Parsed Bytes → Responder
  take_challenge (parsed c) = answering c
  take_challenge value_error = seeking
  take_challenge uncaught = responder_crashed

  abbrev pub read_challenge : Answer (Option String) → Responder
  read_challenge (broke exc) = responder_crashed
  read_challenge (answer none) = seeking
  read_challenge (answer (some raw)) = take_challenge (parse_challenge text raw)

  abbrev pub take_confirm : Bytes → Parsed (Unit {0}) → Responder
  take_confirm c (parsed _) = paired_with_worker (derive_shared_secret crypto responder_secret c)
  take_confirm c value_error = awaiting_confirm c
  take_confirm c uncaught = responder_crashed

  abbrev pub read_confirm : Bytes → Answer (Option String) → Responder
  read_confirm c (broke exc) = responder_crashed
  read_confirm c (answer none) = awaiting_confirm c
  read_confirm c (answer (some raw)) = take_confirm c (parse_confirm text raw)

  -- `respond_to_pairing`
  unfoldable pub step_responder : ℕ → Responder → Broker → Responder × Broker
  step_responder now seeking b =
      let (raw, b') = get_progress net now channel b in
      if ltb now g.responder_deadline then (read_challenge raw, b') else (no_challenge, b)
  step_responder now (answering c) b =
      let reply = text.dumps (response_message (compute_response crypto responder_secret c)) in
      let (sent, b') = send_progress net now response_channel reply b in
      (sent_or (awaiting_confirm c) responder_crashed sent, b')
  step_responder now (awaiting_confirm c) b =
      let (raw, b') = get_progress net now confirm_channel b in
      if ltb now g.responder_deadline then (read_confirm c raw, b') else (not_confirmed, b)
  step_responder now (paired_with_worker shared) b = (paired_with_worker shared, b)
  step_responder now no_challenge b = (no_challenge, b)
  step_responder now not_confirmed b = (not_confirmed, b)
  step_responder now responder_crashed b = (responder_crashed, b)

  unfoldable pub step : Event → World → World
  unfolding step_initiator step_responder
  step (initiate now) w =
      let (side, b) = step_initiator now w.initiator w.broker in
      record w { initiator = side; broker = b }
  step (respond now) w =
      let (side, b) = step_responder now w.responder w.broker in
      record w { responder = side; broker = b }
  step (elsewhere r now) w = record w { broker = (dispatch r now w.broker).1 }

  unfoldable pub run : List Event → World → World
  unfolding step
  run [] w = w
  run (e ∷ es) w = run es (step e w)

abbrev pub start : Broker → World
start b = record { initiator = announcing; responder = seeking; broker = b }
