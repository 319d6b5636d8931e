-- ===== src/Core/Pairing/Leftovers.antt =====
-- Runs of offwork/core/pairing.py over a connection that loses nothing: an honest one, and those that
-- start with the messages of an earlier pairing.
use offwork.Base.{
  ℕ, String, ◌≡◌, ◌∙◌, refl, ap, Bool, true, false, some, List, [], ◌∷◌, ltb, ==_refl, string_eq,
  if◌then◌else◌,
}
use offwork.Base.Dict.{lookup, insert, lookup-insert}
use offwork.Core.Bytes.{Bytes, IsBytes, same_bytes_iff}
use offwork.Worker.Broker.{progress_put, progress_get, Broker, dispatch}
use offwork.Worker.Backend.{answer, Net, send_progress, get_progress}
use offwork.Worker.Remote.Recurrence.{IsHealthy, ask-healthy}
use offwork.Core.Pairing.{
  compute_response, verify_response, derive_shared_secret, challenge_message, response_message,
  confirm_message, channel, response_channel, confirm_channel, announcing, awaiting_response,
  confirming, paired_with_client, pin_mismatch, seeking, answering, awaiting_confirm,
  paired_with_worker, Session, World, Initiator, Responder, derive_intermediate, Event, initiate,
  respond, initiator_secret, responder_secret, step_initiator, step_responder, step, run, start,
}
use offwork.Core.Pairing.Channels.{
  Reads, parse_challenge-made, parse_response-made, parse_confirm-made, channels_differ,
}
use offwork.Core.Pairing.Invariant.{right_response, IsReadable}
use offwork.Worker.Broker.Frame.{lookup-insert_other}

abbrev pub put : String → String → Broker → Broker
put k v b = record b { progress = insert k v b.progress }

put-healthy :
    (net : Net) (now : ℕ) (k v : String) (b : Broker)
    → IsHealthy net
    → send_progress net now k v b ≡ (answer tt, put k v b)
unfolding send_progress dispatch
put-healthy net now k v b up = rw (ask-healthy net now (progress_put k v) b up) refl

get-healthy :
    (net : Net) (now : ℕ) (k : String) (b : Broker)
    → IsHealthy net
    → get_progress net now k b ≡ (answer (lookup k b.progress), b)
unfolding get_progress dispatch
get-healthy net now k b up = rw (ask-healthy net now (progress_get k) b up) refl

module _ (g : Session) (now : ℕ) (up : IsHealthy g.net) (ok : IsReadable g)
    (known : Reads g.text confirm_message) (early₁ : ltb now g.initiator_deadline ≡ true)
    (early₂ : ltb now g.responder_deadline ≡ true) where
  open g use {crypto, text, net, challenge}

  abbrev pub challenge_text : String
  challenge_text = text.dumps (challenge_message challenge)

  abbrev pub response_text : String
  response_text = text.dumps (response_message (right_response g))

  abbrev pub confirm_text : String
  confirm_text = text.dumps confirm_message

  abbrev pub initiator_key : Bytes
  initiator_key = derive_shared_secret crypto (initiator_secret g) challenge

  abbrev pub responder_key : Bytes
  responder_key = derive_shared_secret crypto (responder_secret g) challenge

  abbrev world : Initiator → Responder → Broker → World
  world i r b = record { initiator = i; responder = r; broker = b }

  initiates :
      (i i' : Initiator) (r : Responder) (b b' : Broker) (es : List Event)
      → step_initiator g now i b ≡ (i', b')
      → run g (initiate now ∷ es) (world i r b) ≡ run g es (world i' r b')
  unfolding run step
  initiates i i' r b b' es h = ap (λ (p : Initiator × Broker). run g es (world p.0 r p.1)) h

  responds :
      (i : Initiator) (r r' : Responder) (b b' : Broker) (es : List Event)
      → step_responder g now r b ≡ (r', b')
      → run g (respond now ∷ es) (world i r b) ≡ run g es (world i r' b')
  unfolding run step
  responds i r r' b b' es h = ap (λ (p : Responder × Broker). run g es (world i p.0 p.1)) h

  announces :
      (b : Broker)
      → step_initiator g now announcing b ≡ (awaiting_response, put channel challenge_text b)
  unfolding step_initiator
  announces b = rw (put-healthy net now channel challenge_text b up) refl

  finds_challenge :
      (b : Broker)
      → lookup channel b.progress ≡ some challenge_text
      → step_responder g now seeking b ≡ (answering challenge, b)
  unfolding step_responder
  finds_challenge b h =
      rw
        (get-healthy net now channel b up, h, early₂, parse_challenge-made text challenge ok.0 ok.2)
        refl

  answers :
      (b : Broker)
      → step_responder g now (answering challenge) b
        ≡ (awaiting_confirm challenge, put response_channel response_text b)
  unfolding step_responder
  answers b = rw (put-healthy net now response_channel response_text b up) refl

  judges :
      (b : Broker) (response : Bytes)
      → Reads text (response_message response)
      → IsBytes response
      → lookup response_channel b.progress ≡ some (text.dumps (response_message response))
      → step_initiator g now awaiting_response b ≡ (
        if verify_response crypto (initiator_secret g) challenge response
            then confirming initiator_key
            else pin_mismatch,
        b,
      )
  unfolding step_initiator
  judges b response readable small h =
      rw
        (
          get-healthy net now response_channel b up,
          h,
          early₁,
          parse_response-made text response readable small,
        )
        refl

  confirms :
      (b : Broker)
      → step_initiator g now (confirming initiator_key) b
        ≡ (paired_with_client initiator_key, put confirm_channel confirm_text b)
  unfolding step_initiator
  confirms b = rw (put-healthy net now confirm_channel confirm_text b up) refl

  finds_confirm :
      (b : Broker)
      → lookup confirm_channel b.progress ≡ some confirm_text
      → step_responder g now (awaiting_confirm challenge) b ≡ (paired_with_worker responder_key, b)
  unfolding step_responder
  finds_confirm b h =
      rw (get-healthy net now confirm_channel b up, h, early₂, parse_confirm-made text known) refl

  holds : (k v : String) (b : Broker) → lookup k (put k v b).progress ≡ some v
  holds k v b = simp (lookup-insert, ==_refl) refl

  -- Over a connection that loses nothing, before the deadlines and with messages that read back as
  -- they were written, an initiator whose response channel still holds the response of an earlier
  -- pairing, which its own secret does not verify, gives up with a PIN mismatch at its first look,
  -- whatever PIN the responder will use.
  pub leftover_response_fails :
      (b : Broker) (old : Bytes)
      → Reads text (response_message old)
      → IsBytes old
      → lookup response_channel b.progress ≡ some (text.dumps (response_message old))
      → verify_response crypto (initiator_secret g) challenge old ≡ false
      → (run g (initiate now ∷ initiate now ∷ []) (start b)).initiator ≡ pin_mismatch
  unfolding run
  leftover_response_fails b old readable small left wrong =
      let (_, _, rc, _, _, _) = channels_differ in
      let b₁ = put channel challenge_text b in
      let still =
        lookup-insert_other response_channel channel challenge_text b.progress rc ∙ left in
      let gives_up : step_initiator g now awaiting_response b₁ ≡ (pin_mismatch, b₁) =
        judges b₁ old readable small still
        ∙ ap (λ (v : Bool). (if v then confirming initiator_key else pin_mismatch, b₁)) wrong in
      ap (λ (w : World). w.initiator)
        (initiates announcing awaiting_response seeking b b₁ (initiate now ∷ []) (announces b)
          ∙ initiates awaiting_response pin_mismatch seeking b₁ b₁ [] gives_up)

  -- With a confirmation left behind the responder ends paired although the initiator has seen no
  -- response, whatever the two PINs.
  pub leftover_confirm_pairs :
      (b : Broker)
      → lookup confirm_channel b.progress ≡ some confirm_text
      → (run g (initiate now ∷ respond now ∷ respond now ∷ respond now ∷ []) (start b)).responder
        ≡ paired_with_worker responder_key
  unfolding run
  leftover_confirm_pairs b left =
      let (_, _, _, _, fc, fr) = channels_differ in
      let b₁ = put channel challenge_text b in
      let b₂ = put response_channel response_text b₁ in
      let still =
        lookup-insert_other confirm_channel response_channel response_text b₁.progress fr
        ∙ lookup-insert_other confirm_channel channel challenge_text b.progress fc
        ∙ left in
      ap (λ (w : World). w.responder)
        (initiates announcing awaiting_response seeking b b₁
            (respond now ∷ respond now ∷ respond now ∷ []) (announces b)
          ∙ responds awaiting_response seeking (answering challenge) b₁ b₁
              (respond now ∷ respond now ∷ []) (finds_challenge b₁ (holds channel challenge_text b))
          ∙ responds awaiting_response (answering challenge) (awaiting_confirm challenge) b₁ b₂
              (respond now ∷ []) (answers b₁)
          ∙ responds awaiting_response (awaiting_confirm challenge)
              (paired_with_worker responder_key) b₂ b₂ [] (finds_confirm b₂ still))

  -- Two sides with the same PIN that take turns before their deadlines, over a connection that
  -- loses nothing and with messages that read back as they were written, both end paired and with
  -- one key, whatever an earlier pairing left behind.
  pub pairing_completes :
      (b : Broker)
      → g.initiator_pin ≡ g.responder_pin
      → let w =
          run g
            (initiate now
              ∷ respond now
              ∷ respond now
              ∷ initiate now
              ∷ initiate now
              ∷ respond now
              ∷ [])
            (start b) in
        (w.initiator ≡ paired_with_client responder_key)
        × (w.responder ≡ paired_with_worker responder_key)
  unfolding run
  pairing_completes b same =
      let b₁ = put channel challenge_text b in
      let b₂ = put response_channel response_text b₁ in
      let b₃ = put confirm_channel confirm_text b₂ in
      let equal : initiator_secret g ≡ responder_secret g = ap (derive_intermediate crypto) same in
      let key : initiator_key ≡ responder_key =
        ap (λ s. derive_shared_secret crypto s challenge) equal in
      let good : verify_response crypto (initiator_secret g) challenge (right_response g) ≡ true =
        unfold verify_response in
        (same_bytes_iff (compute_response crypto (initiator_secret g) challenge)
            (right_response g)).1
          (ap (λ s. compute_response crypto s challenge) equal) in
      let accepts : step_initiator g now awaiting_response b₂ ≡ (confirming initiator_key, b₂) =
        judges b₂ (right_response g) ok.1 ok.3 (holds response_channel response_text b₁)
        ∙ ap (λ (v : Bool). (if v then confirming initiator_key else pin_mismatch, b₂)) good in
      let ended =
        initiates announcing awaiting_response seeking b b₁
          (respond now ∷ respond now ∷ initiate now ∷ initiate now ∷ respond now ∷ []) (announces b)
        ∙ responds awaiting_response seeking (answering challenge) b₁ b₁
            (respond now ∷ initiate now ∷ initiate now ∷ respond now ∷ [])
            (finds_challenge b₁ (holds channel challenge_text b))
        ∙ responds awaiting_response (answering challenge) (awaiting_confirm challenge) b₁ b₂
            (initiate now ∷ initiate now ∷ respond now ∷ []) (answers b₁)
        ∙ initiates awaiting_response (confirming initiator_key) (awaiting_confirm challenge) b₂ b₂
            (initiate now ∷ respond now ∷ []) accepts
        ∙ initiates (confirming initiator_key) (paired_with_client initiator_key)
            (awaiting_confirm challenge) b₂ b₃ (respond now ∷ []) (confirms b₂)
        ∙ responds (paired_with_client initiator_key) (awaiting_confirm challenge)
            (paired_with_worker responder_key) b₃ b₃ []
            (finds_confirm b₃ (holds confirm_channel confirm_text b₂)) in
      (
        ap (λ (w : World). w.initiator) ended ∙ ap paired_with_client key,
        ap (λ (w : World). w.responder) ended,
      )
