-- ===== src/Core/Pairing/Invariant.antt =====
-- What every step of a pairing in offwork/core/pairing.py keeps.
use offwork.Base.{
  ℕ, String, ◌≡◌, refl, sym, ap, subst, ◌⊎◌, inl, inr, true, Option, none, some, List, [], ◌∷◌, ltb,
  string_eq, Bool-cases,
}
use offwork.Base.Dict.{Dict, lookup}
use offwork.Core.Bytes.{Bytes, IsBytes}
use offwork.Worker.Broker.{Request, Broker, dispatch}
use offwork.Worker.Broker.Frame.{Apart, TaskView, dispatch-view}
use offwork.Worker.Backend.{Answer, answer, broke, send_progress}
use offwork.Core.Pairing.{
  Parsed, parsed, value_error, uncaught, compute_response, verify_response, derive_shared_secret,
  challenge_message, response_message, confirm_message, parse_confirm, channel, response_channel,
  confirm_channel, Initiator, announcing, awaiting_response, confirming, paired_with_client,
  pin_mismatch, no_response, initiator_crashed, Responder, seeking, answering, awaiting_confirm,
  paired_with_worker, no_challenge, not_confirmed, responder_crashed, Session, World, Event,
  initiate, respond, elsewhere, initiator_secret, responder_secret, read_response, read_challenge,
  read_confirm, take_confirm, sent_or, step_initiator, step_responder, step, run,
}
use offwork.Core.Pairing.Channels.{
  Reads, parse_challenge-made, parse_response-made, put-cases, get-cases, Held, put_keeps,
  put_elsewhere, channels_differ,
}

-- A request of someone else does not put into the channels.
abbrev pub IsElsewhere : Event → Type 0
IsElsewhere (initiate now) = Unit
IsElsewhere (respond now) = Unit
IsElsewhere (elsewhere r now) = Apart channel r × Apart response_channel r × Apart confirm_channel r

abbrev pub AllElsewhere : List Event → Type 0
AllElsewhere [] = Unit
AllElsewhere (e ∷ es) = IsElsewhere e × AllElsewhere es

module _ (g : Session) where
  open g use {crypto, text, net, challenge}

  abbrev pub right_response : Bytes
  right_response = compute_response crypto (responder_secret g) challenge

  -- The PINs give the same response to the challenge.
  abbrev pub Verified : Type 0
  Verified = verify_response crypto (initiator_secret g) challenge right_response ≡ true

  abbrev pub IsReadable : Type 0
  IsReadable =
      Reads text (challenge_message challenge)
      × Reads text (response_message right_response)
      × IsBytes challenge
      × IsBytes right_response

  abbrev pub InitiatorOk : Initiator → Type 0
  InitiatorOk (confirming shared) =
      Verified × (shared ≡ derive_shared_secret crypto (initiator_secret g) challenge)
  InitiatorOk (paired_with_client shared) =
      Verified × (shared ≡ derive_shared_secret crypto (initiator_secret g) challenge)
  InitiatorOk _ = Unit

  abbrev pub ResponderOk : Responder → Type 0
  ResponderOk (answering c) = c ≡ challenge
  ResponderOk (awaiting_confirm c) = c ≡ challenge
  ResponderOk (paired_with_worker shared) =
      Verified × (shared ≡ derive_shared_secret crypto (responder_secret g) challenge)
  ResponderOk _ = Unit

  -- What the three channels hold in one session.
  abbrev pub ChannelsOk : Dict String String → Type 0
  ChannelsOk d =
      Held channel (text.dumps (challenge_message challenge)) d
      × Held response_channel (text.dumps (response_message right_response)) d
      × ((lookup confirm_channel d ≡ none) ⊎ Verified)

  abbrev pub WorldOk : World → Type 0
  WorldOk w = ChannelsOk w.broker.progress × InitiatorOk w.initiator × ResponderOk w.responder

  pub sees_response :
      (d : Dict String String) (raw : Option String)
      → IsReadable
      → (raw ≡ none) ⊎ (raw ≡ some (text.dumps (response_message right_response)))
      → InitiatorOk (read_response g (answer raw))
  sees_response d raw ok (inl e) = rw e tt
  sees_response d raw (_, readable, _, small) (inr e) =
      elim (Bool-cases (verify_response crypto (initiator_secret g) challenge right_response)) [
        | inl good ↦
            rw (e, parse_response-made text right_response readable small, good) (good, refl)
        | inr bad ↦ rw (e, parse_response-made text right_response readable small, bad) tt
      ]

  pub sees_challenge :
      (raw : Option String)
      → IsReadable
      → (raw ≡ none) ⊎ (raw ≡ some (text.dumps (challenge_message challenge)))
      → ResponderOk (read_challenge g (answer raw))
  sees_challenge raw ok (inl e) = rw e tt
  sees_challenge raw (readable, _, small, _) (inr e) =
      rw (e, parse_challenge-made text challenge readable small) refl

  pub confirmed_ok :
      (c : Bytes) (p : Parsed (Unit {0}))
      → c ≡ challenge
      → Verified
      → ResponderOk (take_confirm g c p)
  confirmed_ok c (parsed _) e v = (v, ap (derive_shared_secret crypto (responder_secret g)) e)
  confirmed_ok c value_error e v = e
  confirmed_ok c uncaught e v = tt

  pub sees_confirm :
      (c : Bytes) (raw : Option String)
      → c ≡ challenge
      → (raw ≡ none) ⊎ Verified
      → ResponderOk (read_confirm g c (answer raw))
  sees_confirm c none e h = e
  sees_confirm c (some raw) e (inl h) = absurd (cc h)
  sees_confirm c (some raw) e (inr v) = confirmed_ok c (parse_confirm text raw) e v

  pub announced :
      (sent : Answer (Unit {0})) → InitiatorOk (sent_or g awaiting_response initiator_crashed sent)
  announced (answer _) = tt
  announced (broke exc) = tt

  pub finished :
      (shared : Bytes) (sent : Answer (Unit {0}))
      → InitiatorOk (confirming shared)
      → InitiatorOk (sent_or g (paired_with_client shared) initiator_crashed sent)
  finished shared (answer _) h = h
  finished shared (broke exc) h = tt

  pub answered :
      (c : Bytes) (sent : Answer (Unit {0}))
      → c ≡ challenge
      → ResponderOk (sent_or g (awaiting_confirm c) responder_crashed sent)
  answered c (answer _) e = e
  answered c (broke exc) e = tt

  pub moved :
      (j : String) (n d : Dict String String) (v : String)
      → lookup j n ≡ lookup j d
      → Held j v d
      → Held j v n
  moved j n d v e h = rw e h

  pub initiator-Ok :
      (now : ℕ) (i : Initiator) (b : Broker)
      → IsReadable
      → ChannelsOk b.progress
      → InitiatorOk i
      → let (i', b') = step_initiator g now i b in ChannelsOk b'.progress × InitiatorOk i'
  unfolding step_initiator
  initiator-Ok now announcing b ok (hc, hr, hf) h =
      let v = text.dumps (challenge_message challenge) in
      let n = (send_progress net now channel v b).1.progress in
      let put = put-cases net now channel v b in
      let (_, _, rc, _, fc, _) = channels_differ in
      (
        (
          put_keeps channel v n b.progress put hc,
          rw (put_elsewhere response_channel channel v n b.progress put rc) hr,
          rw (put_elsewhere confirm_channel channel v n b.progress put fc) hf,
        ),
        announced (send_progress net now channel v b).0,
      )
  initiator-Ok now awaiting_response b ok held h =
      let (raw, same) = get-cases net now response_channel b in
      elim (Bool-cases (ltb now g.initiator_deadline)) [
        | inr late ↦ rw late (held, tt)
        | inl early ↦ elim raw [
          | inl e ↦
              rw (early, e, same)
                (held, sees_response b.progress (lookup response_channel b.progress) ok held.1)
          | inr (_, e) ↦ rw (early, e, same) (held, tt)
        ]
      ]
  initiator-Ok now (confirming shared) b ok (hc, hr, hf) h =
      let v = text.dumps confirm_message in
      let n = (send_progress net now confirm_channel v b).1.progress in
      let put = put-cases net now confirm_channel v b in
      let (_, cf, _, rf, _, _) = channels_differ in
      (
        (
          rw (put_elsewhere channel confirm_channel v n b.progress put cf) hc,
          rw (put_elsewhere response_channel confirm_channel v n b.progress put rf) hr,
          inr h.0,
        ),
        finished shared (send_progress net now confirm_channel v b).0 h,
      )
  initiator-Ok now (paired_with_client shared) b ok held h = (held, h)
  initiator-Ok now pin_mismatch b ok held h = (held, h)
  initiator-Ok now no_response b ok held h = (held, h)
  initiator-Ok now initiator_crashed b ok held h = (held, h)

  pub responder-Ok :
      (now : ℕ) (r : Responder) (b : Broker)
      → IsReadable
      → ChannelsOk b.progress
      → ResponderOk r
      → let (r', b') = step_responder g now r b in ChannelsOk b'.progress × ResponderOk r'
  unfolding step_responder
  responder-Ok now seeking b ok held h =
      let (raw, same) = get-cases net now channel b in
      elim (Bool-cases (ltb now g.responder_deadline)) [
        | inr late ↦ rw late (held, tt)
        | inl early ↦ elim raw [
          | inl e ↦ rw (early, e, same) (held, sees_challenge (lookup channel b.progress) ok held.0)
          | inr (_, e) ↦ rw (early, e, same) (held, tt)
        ]
      ]
  responder-Ok now (answering c) b ok (hc, hr, hf) h =
      let v = text.dumps (response_message (compute_response crypto (responder_secret g) c)) in
      let n = (send_progress net now response_channel v b).1.progress in
      let put = put-cases net now response_channel v b in
      let (cr, _, _, _, _, fr) = channels_differ in
      let right : v ≡ text.dumps (response_message right_response) =
        ap (λ x. text.dumps (response_message (compute_response crypto (responder_secret g) x)))
          h in
      (
        (
          rw (put_elsewhere channel response_channel v n b.progress put cr) hc,
          subst (λ x. Held response_channel x n) right
              (put_keeps response_channel v n b.progress put
                (subst (λ x. Held response_channel x b.progress) (sym right) hr)),
          rw (put_elsewhere confirm_channel response_channel v n b.progress put fr) hf,
        ),
        answered c (send_progress net now response_channel v b).0 h,
      )
  responder-Ok now (awaiting_confirm c) b ok held h =
      let (raw, same) = get-cases net now confirm_channel b in
      elim (Bool-cases (ltb now g.responder_deadline)) [
        | inr late ↦ rw late (held, tt)
        | inl early ↦ elim raw [
          | inl e ↦
              rw (early, e, same)
                (held, sees_confirm c (lookup confirm_channel b.progress) h held.2)
          | inr (_, e) ↦ rw (early, e, same) (held, tt)
        ]
      ]
  responder-Ok now (paired_with_worker shared) b ok held h = (held, h)
  responder-Ok now no_challenge b ok held h = (held, h)
  responder-Ok now not_confirmed b ok held h = (held, h)
  responder-Ok now responder_crashed b ok held h = (held, h)

  pub kept :
      (k : String) (r : Request) (now : ℕ) (b : Broker)
      → Apart k r
      → lookup k (dispatch r now b).1.progress ≡ lookup k b.progress
  kept k r now b away = ap (λ (x : TaskView). x.progress) (dispatch-view r now b k away)

  pub step-Ok :
      (e : Event) (w : World) → IsReadable → IsElsewhere e → WorldOk w → WorldOk (step g e w)
  unfolding step
  step-Ok (initiate now) w ok away (held, hi, hr) =
      let (held', hi') = initiator-Ok now w.initiator w.broker ok held hi in (held', hi', hr)
  step-Ok (respond now) w ok away (held, hi, hr) =
      let (held', hr') = responder-Ok now w.responder w.broker ok held hr in (held', hi, hr')
  step-Ok (elsewhere r now) w ok (ac, ar, af) ((hc, hresp, hf), hi, hr) = (
    (
      rw (kept channel r now w.broker ac) hc,
      rw (kept response_channel r now w.broker ar) hresp,
      rw (kept confirm_channel r now w.broker af) hf,
    ),
    hi,
    hr,
  )

  pub run-Ok :
      (es : List Event) (w : World)
      → IsReadable
      → AllElsewhere es
      → WorldOk w
      → WorldOk (run g es w)
  unfolding run
  run-Ok [] w ok away h = h
  run-Ok (e ∷ es) w ok (away, rest) h = run-Ok es (step g e w) ok rest (step-Ok e w ok away h)
