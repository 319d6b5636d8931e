-- ===== src/Core/Envelope/Honest.antt =====
-- `build_signed_envelope` followed by `verify_task_envelope` of offwork/core/envelope.py.
use offwork.Base.{
  ℕ, ◌/◌, ◌%◌, String, ◌≡◌, ◌≢◌, refl, Bool, true, false, none, some, arith, ==_refl, string_eq,
  if◌then◌else◌, ap, ◌∙◌, sym, [], ◌∷◌,
}
use mathlib.Core.Option.{some-injective}
use offwork.Core.Bytes.{Bytes, IsBytes, codes, hex, fromhex, fromhex-hex, digit_ascii}
use offwork.Core.Json.{
  Json, str, Fields, end, field, get_field, set_field, without_two, field_laws, dict,
}
use offwork.Core.Nonces.{NonceLru, check_and_add}
use offwork.Core.Clients.{
  is_revoked, register_or_verify, Registered, new_client, known_client, identity_mismatch,
  KnownClients,
}
use offwork.Core.Task.{Task, to_dict, from_dict}
use offwork.Core.Task.Wire.{read_laws}
use offwork.Core.Envelope.{
  Setting, Verifier, Header, headed, Verdict, accepted, rejected, ed25519_failed, is_ascii,
  read_header, make_header, is_stale, at, per_client_key, compute_signature, canonical_payload,
  envelope_body, add_signatures, signed_fields, verify_task_envelope, check_json, check_header,
  check_replay, check_hmac, check_ed25519, check_pin, make_task,
}

-- The keys of the signatures are new to the body, so stripping them gives the body back.
strip_added :
    (a b : String) (v w : Json) (fs : Fields)
    → get_field a fs ≡ none
    → get_field b fs ≡ none
    → without_two a b (set_field b w (set_field a v fs)) ≡ fs
unfolding get_field set_field without_two
strip_added a b v w end ha hb = ground arith
strip_added a b v w (field j u fs) ha hb = ground (arith, strip_added a b v w fs)

module _ (g : Setting) (task : Task) (client_id : String) (iat : ℕ) (nonce : String)
    (public_key ed_sig : Bytes) where
  abbrev body : Fields
  body = envelope_body g task client_id iat nonce public_key

  abbrev mac : String
  mac = compute_signature g (g.text.dumps_sorted body) (per_client_key g client_id)

  abbrev signed : Fields
  signed = set_field "ed_sig" (str (hex ed_sig)) (set_field "signature" (str mac) body)

  payload_signed : canonical_payload g signed ≡ g.text.dumps_sorted body
  unfolding canonical_payload
  payload_signed = ap g.text.dumps_sorted (
      strip_added "signature" "ed_sig" (str mac) (str (hex ed_sig)) body
        (unfold envelope_body to_dict string_eq in simp field_laws)
        (unfold envelope_body to_dict string_eq in simp field_laws))

  abbrev sender : Header
  sender = record {
    client_id = client_id;
    nonce = nonce;
    pubkey = hex public_key;
    ed_sig = hex ed_sig;
    hmac_sig = mac;
    iat = at iat;
  }

  header_signed : read_header signed ≡ headed sender
  unfolding read_header make_header envelope_body to_dict string_eq
  header_signed = simp field_laws

  task_signed : from_dict "" signed ≡ some task
  unfolding from_dict envelope_body to_dict string_eq
  task_signed = simp (field_laws, read_laws)

hex_ascii : (bs : Bytes) → is_ascii (codes (hex bs)) ≡ true
unfolding codes hex
hex_ascii [] = refl
hex_ascii (b ∷ bs) = ground (arith, digit_ascii (b / 16), digit_ascii (b % 16), hex_ascii bs)

module _ (g : Setting) (task : Task) (client_id : String) (iat : ℕ) (nonce : String)
    (public_key ed_sig : Bytes) (s : Verifier) (t clock : ℕ) where
  abbrev envelope : Fields
  envelope = signed g task client_id iat nonce public_key ed_sig

  abbrev verified : Bool
  verified =
      g.scheme.verify
        (g.crypto.utf8 (g.text.dumps_sorted (body g task client_id iat nonce public_key ed_sig)))
        ed_sig public_key

  abbrev verdict_of : Bool → Verdict
  verdict_of ok = if ok then accepted task else rejected ed25519_failed

  abbrev from : Header
  from = sender g task client_id iat nonce public_key ed_sig

  pin_passes :
      (r : Registered × KnownClients) (nonces : NonceLru)
      → r.0 ≢ identity_mismatch
      → (check_pin g envelope r nonces).0 ≡ accepted task
  unfolding check_pin make_task
  pin_passes (identity_mismatch, clients) nonces ok = absurd (ok refl)
  pin_passes (new_client, clients) nonces ok =
      rw (task_signed g task client_id iat nonce public_key ed_sig)
  pin_passes (known_client, clients) nonces ok =
      rw (task_signed g task client_id iat nonce public_key ed_sig)

  ed25519_verdict :
      (s' : Verifier)
      → IsBytes public_key
      → IsBytes ed_sig
      → (register_or_verify client_id (hex public_key) clock s'.clients).0 ≢ identity_mismatch
      → (check_ed25519 g envelope from clock
          (fromhex (codes (hex public_key)))
          (fromhex (codes (hex ed_sig)))
          s').0
        ≡ verdict_of verified
  unfolding check_ed25519
  ed25519_verdict s' key_bytes sig_bytes pinned =
      rw
        (
          fromhex-hex public_key key_bytes,
          fromhex-hex ed_sig sig_bytes,
          payload_signed g task client_id iat nonce public_key ed_sig,
        )
        (split verified)
    where
      registered : Registered × KnownClients
      registered = register_or_verify client_id (hex public_key) clock s'.clients

      split :
          (ok : Bool)
          → (if ok
              then check_pin g envelope registered s'.nonces
              else (rejected ed25519_failed, s')).0
            ≡ verdict_of ok
      split true = pin_passes registered s'.nonces pinned
      split false = refl

  hmac_verdict :
      (s' : Verifier)
      → IsBytes public_key
      → IsBytes ed_sig
      → (register_or_verify client_id (hex public_key) clock s'.clients).0 ≢ identity_mismatch
      → (check_hmac g envelope from clock s').0 ≡ verdict_of verified
  unfolding check_hmac
  hmac_verdict s' key_bytes sig_bytes pinned =
      rw
        (
          mac_ascii,
          payload_signed g task client_id iat nonce public_key ed_sig,
          ==_refl (mac g task client_id iat nonce public_key ed_sig),
        )
        (ed25519_verdict s' key_bytes sig_bytes pinned)
    where
      mac_ascii : is_ascii (codes (mac g task client_id iat nonce public_key ed_sig)) ≡ true
      mac_ascii = unfold compute_signature in hex_ascii _

-- An envelope that `build_signed_envelope` makes is a dict whose verification, when the sender is not
-- revoked nor pinned to another key, the timestamp is in the window and the nonce is new, is decided
-- by its Ed25519 signature alone, if the JSON text reads back as the dict: the worker gets the task that was sent if the signature verifies,
-- and a SignatureError otherwise.
pub honest_verdict :
    (g : Setting) (task : Task) (client_id : String) (iat : ℕ) (nonce : String)
    (seed public_key ed_sig : Bytes) (s : Verifier) (t clock : ℕ) (fs : Fields)
    → signed_fields g task client_id iat nonce seed public_key ≡ some fs
    → g.text.loads (g.text.dumps fs) ≡ some (dict fs)
    → g.scheme.sign
        (g.crypto.utf8 (g.text.dumps_sorted (envelope_body g task client_id iat nonce public_key)))
        seed
      ≡ some ed_sig
    → IsBytes public_key
    → IsBytes ed_sig
    → is_revoked client_id s.clients ≡ false
    → is_stale g.clock_skew t (at iat) ≡ false
    → (check_and_add (record { first = client_id; second = nonce }) t s.nonces).0 ≡ true
    → (register_or_verify client_id (hex public_key) clock s.clients).0 ≢ identity_mismatch
    → (verify_task_envelope g (g.text.dumps fs) t clock s).0 ≡ (
        if g.scheme.verify
          (g.crypto.utf8
            (g.text.dumps_sorted (envelope_body g task client_id iat nonce public_key)))
          ed_sig
          public_key
        then accepted task
        else rejected ed25519_failed)
unfolding verify_task_envelope check_json check_header signed_fields add_signatures
honest_verdict g task client_id iat nonce seed public_key ed_sig s t clock fs built parsed signs
      key_bytes sig_bytes clear recent new pinned =
    let same : some fs ≡ some (signed g task client_id iat nonce public_key ed_sig) =
      sym built ∙ rw signs in
    let held : g.text.loads (g.text.dumps fs)
        ≡ some (dict (signed g task client_id iat nonce public_key ed_sig)) =
      parsed ∙ ap (λ d. some (dict d)) (some-injective _ _ same) in
    rw held (
      rw (header_signed g task client_id iat nonce public_key ed_sig)
        (rw (clear, recent) (asked _ new)))
  where
    asked :
        (r : Bool × NonceLru)
        → r.0 ≡ true
        → (check_replay g
            (signed g task client_id iat nonce public_key ed_sig)
            (sender g task client_id iat nonce public_key ed_sig)
            clock
            r
            s).0
          ≡ (if g.scheme.verify
                (g.crypto.utf8
                  (g.text.dumps_sorted (envelope_body g task client_id iat nonce public_key)))
                ed_sig
                public_key
              then accepted task
              else rejected ed25519_failed)
    asked (false, nonces) e = absurd (cc)
    asked (true, nonces) e =
        unfold check_replay in
        hmac_verdict g task client_id iat nonce public_key ed_sig s t clock
          (record s { nonces = nonces }) key_bytes sig_bytes pinned
