-- ===== src/Core/Pairing/Agreement.antt =====
-- The two sides of offwork/core/pairing.py in any interleaving.
use offwork.Base.{◌≡◌, ◌≢◌, ◌∙◌, sym, ap, subst, inl, none, List, string_eq}
use offwork.Base.Dict.{lookup}
use offwork.Core.Bytes.{Bytes, same_bytes_iff}
use offwork.Worker.Broker.{Broker}
use offwork.Core.Pairing.{
  compute_response, verify_response, derive_shared_secret, channel, response_channel,
  confirm_channel, paired_with_client, paired_with_worker, Session, Event, initiator_secret, run,
  start, derive_intermediate,
}
use offwork.Core.Pairing.Invariant.{
  AllElsewhere, right_response, IsReadable, InitiatorOk, ResponderOk, WorldOk, run-Ok,
}

-- The broker holds nothing of an earlier pairing.
abbrev pub IsFresh : Broker → Type 0
IsFresh b =
    (lookup channel b.progress ≡ none)
    × (lookup response_channel b.progress ≡ none)
    × (lookup confirm_channel b.progress ≡ none)

module _ (g : Session) (es : List Event) (b : Broker) (ok : IsReadable g) (away : AllElsewhere es)
    (fresh : IsFresh b) where
  reached : WorldOk g (run g es (start b))
  reached = run-Ok g es (start b) ok away ((inl fresh.0, inl fresh.1, inl fresh.2), tt, tt)

  -- In any interleaving of the two sides with requests of others that keep off the pairing
  -- channels, over any connection, from a broker without messages of an earlier pairing, and if the
  -- challenge and the response are bytes whose messages read back as they were written: if both
  -- sides were given the same PIN and both end paired, then they have the same key.
  pub pairing_agrees :
      (k₁ k₂ : Bytes)
      → g.initiator_pin ≡ g.responder_pin
      → (run g es (start b)).initiator ≡ paired_with_client k₁
      → (run g es (start b)).responder ≡ paired_with_worker k₂
      → k₁ ≡ k₂
  pairing_agrees k₁ k₂ same e₁ e₂ =
      let (_, hi, hr) = reached in
      let (_, f₁) = subst (InitiatorOk g) e₁ hi in
      let (_, f₂) = subst (ResponderOk g) e₂ hr in
      f₁
      ∙ ap (λ pin. derive_shared_secret g.crypto (derive_intermediate g.crypto pin) g.challenge)
          same
      ∙ sym f₂

  -- In any interleaving of the two sides with requests of others that keep off the pairing
  -- channels, over any connection, from a broker without messages of an earlier pairing, and if the
  -- challenge and the response are bytes whose messages read back as they were written: if the
  -- secrets of the two PINs give different responses to the challenge, then neither side ever ends
  -- paired.
  pub wrong_pin_never_pairs :
      (k : Bytes)
      → compute_response g.crypto (initiator_secret g) g.challenge ≢ right_response g
      → ((run g es (start b)).initiator ≢ paired_with_client k)
        × ((run g es (start b)).responder ≢ paired_with_worker k)
  unfolding verify_response
  wrong_pin_never_pairs k wrong =
      let (_, hi, hr) = reached in
      let equal =
        (same_bytes_iff (compute_response g.crypto (initiator_secret g) g.challenge)
          (right_response g)).0 in
      (
        λ e. wrong (equal (subst (InitiatorOk g) e hi).0),
        λ e. wrong (equal (subst (ResponderOk g) e hr).0),
      )
