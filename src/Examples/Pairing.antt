-- ===== src/Examples/Pairing.antt =====
-- A pairing with a challenge of one byte. The toy HMAC joins key and message, and a PIN is "1" or not.
use offwork.Base.{
  String, ◌≡◌, ◌≢◌, refl, Option, none, some, List, [], ◌∷◌, ◌++◌, arith, ◌==◌, string_eq,
  if◌then◌else◌,
}
use offwork.Base.Dict.{lookup}
use offwork.Core.Bytes.{Bytes, Crypto, hex, digit}
use offwork.Core.Json.{Json, dict, get_field}
use offwork.Core.Envelope.{JsonText}
use offwork.Worker.Broker.{Broker, new_broker}
use offwork.Worker.Backend.{fine}
use offwork.Core.Pairing.{
  derive_intermediate, compute_response, challenge_message, response_message, confirm_message,
  response_channel, confirm_channel, paired_with_client, paired_with_worker, Session, Event,
  initiate, respond, initiator_secret, run, start,
}
use offwork.Core.Pairing.Channels.{Reads}
use offwork.Core.Pairing.Invariant.{right_response, IsReadable}
use offwork.Core.Pairing.Agreement.{IsFresh, pairing_agrees, wrong_pin_never_pairs}
use offwork.Core.Pairing.Leftovers.{responder_key, pairing_completes}

abbrev crypto : Crypto
crypto = record {
  sha512 = λ bs. bs;
  hmac_sha256 = λ key message. key ++ message;
  utf8 = λ s. if s == "1" then 1 ∷ [] else 2 ∷ [];
}

abbrev label : Option Json → Option Json → String
label (some (Json.str s)) c = s
label (some _) c = ""
label none (some _) = "c"
label none none = "f"

-- The text of a message that is sent with the given response.
abbrev text : Bytes → JsonText
text response = record {
  loads = λ e. some (
      dict (
        if e == "09"
        then response_message (9 ∷ [])
        else if e == "c"
        then challenge_message (7 ∷ [])
        else if e == "f"
        then confirm_message
        else response_message response));
  dumps = λ fs. label (get_field "response" fs) (get_field "challenge" fs);
  dumps_sorted = λ _. "";
}

abbrev session : String → Session
session pin = record {
  crypto = crypto;
  text = text (2 ∷ (if pin == "1" then 1 ∷ [] else 2 ∷ []) ++ 7 ∷ []);
  net = λ _ _. fine;
  challenge = 7 ∷ [];
  initiator_pin = "1";
  responder_pin = pin;
  initiator_deadline = 30;
  responder_deadline = 30;
}

readable : IsReadable (session "1")
unfolding compute_response derive_intermediate string_eq get_field hex digit
readable = (refl, refl, (omega arith, tt), (omega arith, (omega arith, (omega arith, tt))))

readable_wrong : IsReadable (session "3")
unfolding compute_response derive_intermediate string_eq get_field hex digit
readable_wrong = (refl, refl, (omega arith, tt), (omega arith, (omega arith, (omega arith, tt))))

known : Reads (session "1").text confirm_message
unfolding string_eq get_field
known = refl

nothing_left : IsFresh new_broker
unfolding lookup
nothing_left = (refl, refl, refl)

abbrev turns : List Event
turns = initiate 1 ∷ respond 1 ∷ respond 1 ∷ initiate 1 ∷ initiate 1 ∷ respond 1 ∷ []

abbrev key : Bytes
key = responder_key (session "1") 1 (λ _ _. refl) readable known refl refl

ended :
    let w = run (session "1") turns (start new_broker) in
    (w.initiator ≡ paired_with_client key) × (w.responder ≡ paired_with_worker key)
ended = pairing_completes (session "1") 1 (λ _ _. refl) readable known refl refl new_broker refl

pairing_agrees_example : key ≡ key
pairing_agrees_example =
    pairing_agrees (session "1") turns new_broker readable (tt, (tt, (tt, (tt, (tt, (tt, tt))))))
      nothing_left key key refl ended.0 ended.1

wrong :
    compute_response crypto (initiator_secret (session "3")) (7 ∷ []) ≢ right_response (session "3")
unfolding compute_response derive_intermediate string_eq
wrong = λ e. cc e

wrong_pin_never_pairs_example :
    ((run (session "3") turns (start new_broker)).initiator ≢ paired_with_client key)
    × ((run (session "3") turns (start new_broker)).responder ≢ paired_with_worker key)
wrong_pin_never_pairs_example =
    wrong_pin_never_pairs (session "3") turns new_broker readable_wrong
      (tt, (tt, (tt, (tt, (tt, (tt, tt)))))) nothing_left key wrong

-- What a pairing with another challenge has left.
abbrev used : Broker
used = record new_broker { progress = (response_channel, "09") ∷ (confirm_channel, "f") ∷ [] }
