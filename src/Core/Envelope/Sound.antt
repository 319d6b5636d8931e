-- ===== src/Core/Envelope/Sound.antt =====
-- The checks that an accepted envelope has been through in offwork/core/envelope.py.
use offwork.Base.{
  ℕ, String, ◌≡◌, ◌≢◌, refl, Bool, true, false, Option, none, some, ◌==◌, string_eq, Bool-cases,
  inl, inr,
}
use offwork.Core.Bytes.{Bytes, codes, fromhex}
use offwork.Core.Json.{Json, null, bool, num, nan, str, list, dict, Fields}
use offwork.Core.Nonces.{NonceLru, check_and_add}
use offwork.Core.Clients.{
  KnownClients, is_revoked, register_or_verify, Registered, new_client, known_client,
  identity_mismatch,
}
use offwork.Core.Task.{Task, from_dict}
use offwork.Core.Envelope.{
  Setting, Verifier, Header, Headed, headed, unheaded, accepted, is_ascii, read_header, is_stale,
  per_client_key, compute_signature, canonical_payload, make_task, check_pin, check_ed25519,
  check_hmac, check_replay, nonce_key, check_header, check_json, verify_task_envelope,
}

module _ (g : Setting) (fs : Fields) (task : Task) where
  open g use {crypto, scheme, text, root_token, clock_skew}

  make_task-accepted : (o : Option Task) → make_task g o ≡ accepted task → o ≡ some task
  unfolding make_task
  make_task-accepted none h = absurd (cc)
  make_task-accepted (some t) h = cc

  check_pin-accepted :
      (r : Registered × KnownClients) (nonces : NonceLru)
      → (check_pin g fs r nonces).0 ≡ accepted task
      → (r.0 ≢ identity_mismatch)
        × (from_dict "" fs ≡ some task)
        × ((check_pin g fs r nonces).1.clients ≡ r.1)
  unfolding check_pin
  check_pin-accepted (identity_mismatch, clients) nonces h = absurd (cc)
  check_pin-accepted (new_client, clients) nonces h =
      (λ e. cc, make_task-accepted (from_dict "" fs) h, refl)
  check_pin-accepted (known_client, clients) nonces h =
      (λ e. cc, make_task-accepted (from_dict "" fs) h, refl)

  -- What the signature checks and the pin have found.
  pub record Authentic (h : Header) (clock : ℕ) (clients after : KnownClients) : Type 0 where
    pub pubkey : Bytes
    pub ed_sig : Bytes
    pub hmac_matches :
        (compute_signature g (canonical_payload g fs) (per_client_key g h.client_id) == h.hmac_sig)
        ≡ true
    pub pubkey_read : fromhex (codes h.pubkey) ≡ some pubkey
    pub ed_sig_read : fromhex (codes h.ed_sig) ≡ some ed_sig
    pub ed_verifies : scheme.verify (crypto.utf8 (canonical_payload g fs)) ed_sig pubkey ≡ true
    pub pin_held : (register_or_verify h.client_id h.pubkey clock clients).0 ≢ identity_mismatch
    pub registered : after ≡ (register_or_verify h.client_id h.pubkey clock clients).1
    pub read : from_dict "" fs ≡ some task

  check_ed25519-accepted :
      (h : Header) (clock : ℕ) (p e : Option Bytes) (s : Verifier)
      → fromhex (codes h.pubkey) ≡ p
      → fromhex (codes h.ed_sig) ≡ e
      → (compute_signature g (canonical_payload g fs) (per_client_key g h.client_id) == h.hmac_sig)
        ≡ true
      → (check_ed25519 g fs h clock p e s).0 ≡ accepted task
      → Authentic h clock s.clients (check_ed25519 g fs h clock p e s).1.clients
  unfolding check_ed25519
  check_ed25519-accepted h clock none e s hp he mac ok = absurd (cc)
  check_ed25519-accepted h clock (some p) none s hp he mac ok = absurd (cc)
  check_ed25519-accepted h clock (some p) (some e) s hp he mac ok =
      elim (Bool-cases (scheme.verify (crypto.utf8 (canonical_payload g fs)) e p)) [
        | inl good ↦
            let found : (register_or_verify h.client_id h.pubkey clock s.clients).0
                  ≢ identity_mismatch
                × (from_dict "" fs ≡ some task)
                × ((check_pin g fs (register_or_verify h.client_id h.pubkey clock s.clients)
                      s.nonces).1.clients
                    ≡ (register_or_verify h.client_id h.pubkey clock s.clients).1) =
              check_pin-accepted (register_or_verify h.client_id h.pubkey clock s.clients) s.nonces
                (rw good at ok) in
            rw good (record {
              pubkey = p;
              ed_sig = e;
              hmac_matches = mac;
              pubkey_read = hp;
              ed_sig_read = he;
              ed_verifies = good;
              pin_held = found.0;
              registered = found.2;
              read = found.1;
            })
        | inr bad ↦ absurd (let no_way = rw bad at ok in cc no_way)
      ]

  check_hmac-accepted :
      (h : Header) (clock : ℕ) (s : Verifier)
      → (check_hmac g fs h clock s).0 ≡ accepted task
      → Authentic h clock s.clients (check_hmac g fs h clock s).1.clients
  unfolding check_hmac
  check_hmac-accepted h clock s ok = elim (Bool-cases (is_ascii (codes h.hmac_sig))) [
    | inr odd ↦ absurd (let no_way = rw odd at ok in cc no_way)
    | inl plain ↦
        elim (Bool-cases (
          compute_signature g (canonical_payload g fs) (per_client_key g h.client_id)
          == h.hmac_sig)) [
            | inr bad ↦ absurd (let no_way = rw (plain, bad) at ok in cc no_way)
            | inl good ↦
                rw (plain, good)
                  (check_ed25519-accepted h clock (fromhex (codes h.pubkey))
                    (fromhex (codes h.ed_sig)) s refl refl good (rw (plain, good) at ok))
          ]
  ]

  check_replay-accepted :
      (h : Header) (clock : ℕ) (r : Bool × NonceLru) (s : Verifier)
      → (check_replay g fs h clock r s).0 ≡ accepted task
      → (r.0 ≡ true) × Authentic h clock s.clients (check_replay g fs h clock r s).1.clients
  unfolding check_replay
  check_replay-accepted h clock (false, nonces) s ok = absurd (cc)
  check_replay-accepted h clock (true, nonces) s ok =
      (refl, check_hmac-accepted h clock (record s { nonces = nonces }) ok)

  -- Everything that an accepted envelope has passed, for the state before and the registry after.
  pub record Passed (t clock : ℕ) (s : Verifier) (after : KnownClients) : Type 0 where
    pub header : Header
    pub header_read : read_header fs ≡ headed header
    pub not_revoked : is_revoked header.client_id s.clients ≡ false
    pub not_stale : is_stale clock_skew t header.iat ≡ false
    pub nonce_new : (check_and_add (nonce_key g header) t s.nonces).0 ≡ true
    pub authentic : Authentic header clock s.clients after

  check_header-accepted :
      (r : Headed) (t clock : ℕ) (s : Verifier)
      → read_header fs ≡ r
      → (check_header g fs r t clock s).0 ≡ accepted task
      → Passed t clock s (check_header g fs r t clock s).1.clients
  unfolding check_header
  check_header-accepted (unheaded e) t clock s hr ok = absurd (cc)
  check_header-accepted (headed h) t clock s hr ok =
      elim (Bool-cases (is_revoked h.client_id s.clients)) [
        | inl yes_revoked ↦ absurd (let no_way = rw yes_revoked at ok in cc no_way)
        | inr clear ↦ elim (Bool-cases (is_stale clock_skew t h.iat)) [
          | inl old ↦ absurd (let no_way = rw (clear, old) at ok in cc no_way)
          | inr recent ↦
              let found : ((check_and_add (nonce_key g h) t s.nonces).0 ≡ true)
                  × Authentic h clock s.clients
                      (check_replay g fs h clock (check_and_add (nonce_key g h) t s.nonces)
                        s).1.clients =
                check_replay-accepted h clock (check_and_add (nonce_key g h) t s.nonces) s
                  (rw (clear, recent) at ok) in
              rw (clear, recent)
                (record {
                  header = h;
                  header_read = hr;
                  not_revoked = clear;
                  not_stale = recent;
                  nonce_new = found.0;
                  authentic = found.1;
                })
        ]
      ]

check_json-accepted :
    (g : Setting) (task : Task) (o : Option Json) (t clock : ℕ) (s : Verifier)
    → (check_json g o t clock s).0 ≡ accepted task
    → (fs : Fields) × (o ≡ some (dict fs))
      × Passed g fs task t clock s (check_json g o t clock s).1.clients
unfolding check_json
check_json-accepted g task none t clock s ok = absurd (cc)
check_json-accepted g task (some (dict fs)) t clock s ok =
    (fs, refl, check_header-accepted g fs task (read_header fs) t clock s refl ok)
check_json-accepted g task (some null) t clock s ok = absurd (cc)
check_json-accepted g task (some nan) t clock s ok = absurd (cc)
check_json-accepted g task (some (bool b)) t clock s ok = absurd (cc)
check_json-accepted g task (some (num n)) t clock s ok = absurd (cc)
check_json-accepted g task (some (str x)) t clock s ok = absurd (cc)
check_json-accepted g task (some (list xs)) t clock s ok = absurd (cc)

-- A task is accepted only from a JSON dict whose client is not revoked, whose timestamp is not
-- stale, whose nonce is new, whose HMAC is that of the payload under the client's key, whose
-- Ed25519 signature verifies under its key, whose client is not pinned to another key; and the task
-- is the one that the dict holds.
pub verify_sound :
    (g : Setting) (envelope_json : String) (t clock : ℕ) (s : Verifier) (task : Task)
    → (verify_task_envelope g envelope_json t clock s).0 ≡ accepted task
    → (fs : Fields) × (g.text.loads envelope_json ≡ some (dict fs))
      × Passed g fs task t clock s (verify_task_envelope g envelope_json t clock s).1.clients
unfolding verify_task_envelope
verify_sound g envelope_json t clock s task ok =
    check_json-accepted g task (g.text.loads envelope_json) t clock s ok
