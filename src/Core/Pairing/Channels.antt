-- ===== src/Core/Pairing/Channels.antt =====
-- The messages of offwork/core/pairing.py, and the progress channels that carry them.
use offwork.Base.{
  ℕ, String, ◌≡◌, ◌≢◌, ◌∙◌, refl, sym, subst, ◌⊎◌, inl, inr, true, false, none, some, ◌==◌, ==_refl,
  string_eq,
}
use offwork.Base.Dict.{Dict, lookup, insert, lookup-insert}
use offwork.Core.Bytes.{Bytes, IsBytes, fromhex-hex}
use offwork.Core.Json.{dict, Fields, field_laws}
use offwork.Core.Envelope.{JsonText}
use offwork.Worker.Broker.{progress_put, progress_get, Broker, dispatch}
use offwork.Worker.Broker.Frame.{lookup-insert_other}
use offwork.Worker.Backend.{
  answer, broke, Link, fine, lost_request, lost_reply, Net, ask, call, send_progress, get_progress,
}
use offwork.Worker.Result.{Raised}
use offwork.Core.Pairing.{
  parsed, challenge_message, response_message, confirm_message, decode_bytes, has_type,
  parse_challenge, parse_response, parse_confirm, channel, response_channel, confirm_channel,
}

-- The text of a message reads as the message.
abbrev pub Reads : JsonText → Fields → Type 0
Reads text fs = text.loads (text.dumps fs) ≡ some (dict fs)

pub parse_challenge-made :
    (text : JsonText) (bs : Bytes)
    → Reads text (challenge_message bs)
    → IsBytes bs
    → parse_challenge text (text.dumps (challenge_message bs)) ≡ parsed bs
unfolding parse_challenge decode_bytes has_type string_eq
parse_challenge-made text bs h small = rw h (simp (field_laws, fromhex-hex bs small) refl)

pub parse_response-made :
    (text : JsonText) (bs : Bytes)
    → Reads text (response_message bs)
    → IsBytes bs
    → parse_response text (text.dumps (response_message bs)) ≡ parsed bs
unfolding parse_response decode_bytes has_type string_eq
parse_response-made text bs h small = rw h (simp (field_laws, fromhex-hex bs small) refl)

pub parse_confirm-made :
    (text : JsonText)
    → Reads text confirm_message
    → parse_confirm text (text.dumps confirm_message) ≡ parsed tt
unfolding parse_confirm has_type string_eq
parse_confirm-made text h = rw h (simp field_laws refl)

-- A request to put may be lost; a request to get changes nothing.
pub put-cases :
    (net : Net) (now : ℕ) (k v : String) (b : Broker)
    → let d = (send_progress net now k v b).1.progress in
      (d ≡ b.progress) ⊎ (d ≡ insert k v b.progress)
put-cases net now k v b = go (net (progress_put k v) now) refl
  where
    go :
        (l : Link)
        → net (progress_put k v) now ≡ l
        → let d = (send_progress net now k v b).1.progress in
          (d ≡ b.progress) ⊎ (d ≡ insert k v b.progress)
    go fine e = unfold send_progress ask call dispatch in rw e (inr refl)
    go (lost_request exc) e = unfold send_progress ask call dispatch in rw e (inl refl)
    go (lost_reply exc) e = unfold send_progress ask call dispatch in rw e (inr refl)

pub get-cases :
    (net : Net) (now : ℕ) (k : String) (b : Broker)
    → let (raw, b') = get_progress net now k b in
      ((raw ≡ answer (lookup k b.progress)) ⊎ ((exc : Raised) × (raw ≡ broke exc))) × (b' ≡ b)
get-cases net now k b = go (net (progress_get k) now) refl
  where
    go :
        (l : Link)
        → net (progress_get k) now ≡ l
        → let (raw, b') = get_progress net now k b in
          ((raw ≡ answer (lookup k b.progress)) ⊎ ((exc : Raised) × (raw ≡ broke exc))) × (b' ≡ b)
    go fine e = unfold get_progress ask call dispatch in rw e (inl refl, refl)
    go (lost_request exc) e = unfold get_progress ask call dispatch in rw e (inr (exc, refl), refl)
    go (lost_reply exc) e = unfold get_progress ask call dispatch in rw e (inr (exc, refl), refl)

-- The channel holds nothing, or the text.
abbrev pub Held : String → String → Dict String String → Type 0
Held k v d = (lookup k d ≡ none) ⊎ (lookup k d ≡ some v)

pub put_keeps :
    (k v : String) (n d : Dict String String)
    → (n ≡ d) ⊎ (n ≡ insert k v d)
    → Held k v d
    → Held k v n
put_keeps k v n d (inl e) h = rw e h
put_keeps k v n d (inr e) h = inr (rw e (simp (lookup-insert, ==_refl) refl))

pub put_elsewhere :
    (j k v : String) (n d : Dict String String)
    → (n ≡ d) ⊎ (n ≡ insert k v d)
    → j ≢ k
    → lookup j n ≡ lookup j d
put_elsewhere j k v n d (inl e) h = rw e refl
put_elsewhere j k v n d (inr e) h = rw e (lookup-insert_other j k v d h)

pub differs : (j k : String) → (j == k) ≡ false → j ≢ k
differs j k h =
    λ e. let p : true ≡ false = sym (==_refl k) ∙ subst (λ s. (s == k) ≡ false) e h in cc p

pub channels_differ :
    (channel ≢ response_channel)
    × (channel ≢ confirm_channel)
    × (response_channel ≢ channel)
    × (response_channel ≢ confirm_channel)
    × (confirm_channel ≢ channel)
    × (confirm_channel ≢ response_channel)
unfolding string_eq
channels_differ = (
  differs channel response_channel refl,
  differs channel confirm_channel refl,
  differs response_channel channel refl,
  differs response_channel confirm_channel refl,
  differs confirm_channel channel refl,
  differs confirm_channel response_channel refl,
)
