-- ===== src/Core/Envelope/Nonces.antt =====
-- What `verify_task_envelope` of offwork/core/envelope.py does to the nonce cache.
use offwork.Base.{
  ℕ, ◌≤◌, String, ◌≡◌, refl, ◌⊎◌, inl, inr, Bool, true, false, Option, none, some, List, [], ◌∷◌,
  arith, string_eq, length, Bool-cases, ap, ◌∙◌,
}
use offwork.Core.Bytes.{Bytes, fromhex, codes}
use offwork.Core.Json.{Json, null, bool, num, nan, str, list, dict, Fields}
use offwork.Core.Nonces.{Key, NonceLru, check_and_add, run_checks}
use offwork.Core.Nonces.Replay.{AllWithin}
use offwork.Core.Clients.{
  KnownClients, is_revoked, register_or_verify, Registered, new_client, known_client,
  identity_mismatch,
}
use offwork.Core.Envelope.{
  Setting, Verifier, Header, Headed, headed, unheaded, read_header, is_stale, check_pin,
  check_ed25519, check_hmac, check_replay, nonce_key, check_header, check_json,
  verify_task_envelope,
}

module _ (g : Setting) (fs : Fields) where
  nonces-check_pin :
      (r : Registered × KnownClients) (nonces : NonceLru)
      → (check_pin g fs r nonces).1.nonces ≡ nonces
  unfolding check_pin
  nonces-check_pin (identity_mismatch, clients) nonces = refl
  nonces-check_pin (new_client, clients) nonces = refl
  nonces-check_pin (known_client, clients) nonces = refl

  nonces-check_ed25519 :
      (h : Header) (clock : ℕ) (p e : Option Bytes) (s : Verifier)
      → (check_ed25519 g fs h clock p e s).1.nonces ≡ s.nonces
  unfolding check_ed25519
  nonces-check_ed25519 h clock none e s = refl
  nonces-check_ed25519 h clock (some p) none s = refl
  nonces-check_ed25519 h clock (some p) (some e) s =
      ground
        (arith, nonces-check_pin (register_or_verify h.client_id h.pubkey clock s.clients) s.nonces)

  nonces-check_hmac :
      (h : Header) (clock : ℕ) (s : Verifier) → (check_hmac g fs h clock s).1.nonces ≡ s.nonces
  unfolding check_hmac
  nonces-check_hmac h clock s =
      ground (
        arith,
        nonces-check_ed25519 h clock (fromhex (codes h.pubkey)) (fromhex (codes h.ed_sig)) s,
      )

  nonces-check_replay :
      (h : Header) (clock : ℕ) (r : Bool × NonceLru) (s : Verifier)
      → (check_replay g fs h clock r s).1.nonces ≡ r.1
  unfolding check_replay
  nonces-check_replay h clock (false, nonces) s = refl
  nonces-check_replay h clock (true, nonces) s =
      nonces-check_hmac h clock (record s { nonces = nonces })

  -- Past the first two checks the nonce is recorded, before any signature has been checked.
  pub nonces-check_header :
      (h : Header) (t clock : ℕ) (s : Verifier)
      → is_revoked h.client_id s.clients ≡ false
      → is_stale g.clock_skew t h.iat ≡ false
      → (check_header g fs (headed h) t clock s).1.nonces
        ≡ (check_and_add (nonce_key g h) t s.nonces).1
  unfolding check_header
  nonces-check_header h t clock s clear recent =
      rw (clear, recent) (nonces-check_replay h clock (check_and_add (nonce_key g h) t s.nonces) s)

  -- One verification asks the cache once at most, at the time of the verification.
  check_header-AtMostOne :
      (r : Headed) (t clock : ℕ) (s : Verifier)
      → (((check_header g fs r t clock s).1.nonces ≡ s.nonces)
          ⊎ ((key : Key) × ((check_header g fs r t clock s).1.nonces
                ≡ (check_and_add key t s.nonces).1)))
  unfolding check_header
  check_header-AtMostOne (unheaded e) t clock s = inl refl
  check_header-AtMostOne (headed h) t clock s =
      elim (Bool-cases (is_revoked h.client_id s.clients)) [
        | inl gone ↦ inl (rw gone)
        | inr clear ↦ elim (Bool-cases (is_stale g.clock_skew t h.iat)) [
          | inl old ↦ inl (rw (clear, old))
          | inr recent ↦ inr (
            nonce_key g h,
            rw (clear, recent)
                (nonces-check_replay h clock (check_and_add (nonce_key g h) t s.nonces) s),
          )
        ]
      ]

verify-AtMostOne :
    (g : Setting) (e : String) (t clock : ℕ) (s : Verifier)
    → ((verify_task_envelope g e t clock s).1.nonces ≡ s.nonces)
      ⊎ ((key : Key) × ((verify_task_envelope g e t clock s).1.nonces
            ≡ (check_and_add key t s.nonces).1))
unfolding verify_task_envelope
verify-AtMostOne g e t clock s = parsed (g.text.loads e)
  where
    parsed :
        (o : Option Json)
        → ((check_json g o t clock s).1.nonces ≡ s.nonces)
          ⊎ ((key : Key) × ((check_json g o t clock s).1.nonces ≡ (check_and_add key t s.nonces).1))
    parsed none = unfold check_json in inl refl
    parsed (some (dict fs)) =
        unfold check_json in check_header-AtMostOne g fs (read_header fs) t clock s
    parsed (some null) = unfold check_json in inl refl
    parsed (some nan) = unfold check_json in inl refl
    parsed (some (bool b)) = unfold check_json in inl refl
    parsed (some (num n)) = unfold check_json in inl refl
    parsed (some (str x)) = unfold check_json in inl refl
    parsed (some (list xs)) = unfold check_json in inl refl

-- The envelopes that a worker receives, each at its time.
unfoldable pub receive_all : Setting → List (String × ℕ) → Verifier → Verifier
receive_all g [] s = s
receive_all g ((e, t) ∷ mail) s = receive_all g mail (verify_task_envelope g e t t s).1

abbrev pub AllBefore : ℕ → List (String × ℕ) → Type 0
AllBefore limit [] = Unit
AllBefore limit ((_, t) ∷ mail) = (t ≤ limit) × AllBefore limit mail

-- Receiving envelopes asks the cache at most as often as there are envelopes, at their times.
pub receive_all-calls :
    (g : Setting) (limit : ℕ) (mail : List (String × ℕ)) (s : Verifier)
    → AllBefore limit mail
    → (calls : List (Key × ℕ)) × ((receive_all g mail s).nonces ≡ run_checks calls s.nonces)
      × AllWithin limit calls
      × (length calls ≤ length mail)
unfolding receive_all run_checks
receive_all-calls g limit [] s before = ([], refl, tt, omega arith)
receive_all-calls g limit ((e, t) ∷ mail) s before =
    let (calls, same, within, few) =
      receive_all-calls g limit mail (verify_task_envelope g e t t s).1 before.1 in
    elim (verify-AtMostOne g e t t s) [
      | inl kept ↦ (calls, same ∙ ap (run_checks calls) kept, within, omega arith)
      | inr (key, asked) ↦
          ((key, t) ∷ calls, same ∙ ap (run_checks calls) asked, (before.0, within), omega arith)
    ]
