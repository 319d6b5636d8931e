-- ===== src/Core/Envelope/Burnt.antt =====
-- The order of the replay check and the signature checks in `verify_task_envelope` of
-- offwork/core/envelope.py.
use offwork.Base.{
  ℕ, ◌+◌, ◌≤◌, ◌<◌, String, ◌≡◌, ◌≢◌, refl, Bool, true, false, not, some, arith, ◌==◌, [],
  string_eq, if◌then◌else◌, ap, ◌∙◌, sym, subst,
}
use offwork.Core.Bytes.{codes}
use offwork.Core.Json.{dict, Fields}
use offwork.Core.Nonces.{NonceLru, check_and_add, run_checks}
use offwork.Core.Nonces.Replay.{check_and_add_replay}
use offwork.Core.Clients.{is_revoked}
use offwork.Core.Task.{Task}
use offwork.Core.Envelope.{
  Setting, Verifier, Header, headed, Verdict, accepted, rejected, hmac_failed, type_error, replay,
  is_ascii, read_header, is_stale, per_client_key, compute_signature, canonical_payload, check_hmac,
  check_replay, nonce_key, check_header, check_json, verify_task_envelope,
}

-- The HMAC of the dict is not the one that the worker computes.
abbrev pub IsForged : Setting → Fields → Header → Type 0
IsForged g fs h =
    (compute_signature g (canonical_payload g fs) (per_client_key g h.client_id) == h.hmac_sig)
    ≡ false

-- The state after a forged envelope: the registry as it was, the nonce recorded.
forged_state :
    (g : Setting) (fs : Fields) (h : Header) (t : ℕ) (s : Verifier)
    → is_revoked h.client_id s.clients ≡ false
    → is_stale g.clock_skew t h.iat ≡ false
    → (check_and_add (nonce_key g h) t s.nonces).0 ≡ true
    → IsForged g fs h
    → check_header g fs (headed h) t t s ≡ (
      rejected (if not (is_ascii (codes h.hmac_sig)) then type_error else hmac_failed),
      record s { nonces = (check_and_add (nonce_key g h) t s.nonces).1 },
    )
unfolding check_header check_hmac
forged_state g fs h t s clear recent new forged =
    rw (clear, recent) (asked (check_and_add (nonce_key g h) t s.nonces) new)
  where
    asked :
        (r : Bool × NonceLru)
        → r.0 ≡ true
        → check_replay g fs h t r s ≡ (
          rejected (if not (is_ascii (codes h.hmac_sig)) then type_error else hmac_failed),
          record s { nonces = r.1 },
        )
    asked (false, nonces) e = absurd (cc)
    asked (true, nonces) e = unfold check_replay in ground arith

replayed :
    (g : Setting) (fs : Fields) (h : Header) (t : ℕ) (s : Verifier)
    → is_revoked h.client_id s.clients ≡ false
    → is_stale g.clock_skew t h.iat ≡ false
    → (check_and_add (nonce_key g h) t s.nonces).0 ≡ false
    → (check_header g fs (headed h) t t s).0 ≡ rejected replay
unfolding check_header
replayed g fs h t s clear recent seen =
    rw (clear, recent) (asked (check_and_add (nonce_key g h) t s.nonces) seen)
  where
    asked : (r : Bool × NonceLru) → r.0 ≡ false → (check_replay g fs h t r s).0 ≡ rejected replay
    asked (false, nonces) e = unfold check_replay in refl
    asked (true, nonces) e = absurd (cc)

verify_of_dict :
    (g : Setting) (e : String) (fs : Fields) (h : Header) (t : ℕ) (s : Verifier)
    → g.text.loads e ≡ some (dict fs)
    → read_header fs ≡ headed h
    → verify_task_envelope g e t t s ≡ check_header g fs (headed h) t t s
unfolding verify_task_envelope check_json
verify_of_dict g e fs h t s parsed shown = rw (parsed, shown)

-- An envelope that is a JSON dict with a full header, of a client that is not revoked, with a fresh
-- timestamp, a new nonce and a wrong HMAC is rejected, but if the nonce cache has room for a nonce at
-- all, its nonce counts as seen: the genuine envelope of that client with that nonce, which comes
-- next, with a fresh timestamp and within the time to live, is rejected as a replay. So who knows a
-- nonce before its envelope arrives can have that envelope rejected, without any key.
pub forged_burns_nonce :
    (g : Setting) (forged genuine : String) (fs fs' : Fields) (h h' : Header) (t now : ℕ)
    (s : Verifier)
    → g.text.loads forged ≡ some (dict fs)
    → read_header fs ≡ headed h
    → g.text.loads genuine ≡ some (dict fs')
    → read_header fs' ≡ headed h'
    → nonce_key g h' ≡ nonce_key g h
    → is_revoked h.client_id s.clients ≡ false
    → is_stale g.clock_skew t h.iat ≡ false
    → is_stale g.clock_skew now h'.iat ≡ false
    → (check_and_add (nonce_key g h) t s.nonces).0 ≡ true
    → IsForged g fs h
    → 0 < s.nonces.capacity
    → now ≤ t + s.nonces.ttl
    → ((task : Task) → (verify_task_envelope g forged t t s).0 ≢ accepted task)
      × ((verify_task_envelope g genuine now now (verify_task_envelope g forged t t s).1).0
          ≡ rejected replay)
forged_burns_nonce g forged genuine fs fs' h h' t now s parsed shown parsed' shown' same clear
      recent recent' new wrong room young =
    (λ task e. cc (ap (λ (r : Verdict × Verifier). r.0) after, e), again)
  where
    after : verify_task_envelope g forged t t s ≡ (
      rejected (if not (is_ascii (codes h.hmac_sig)) then type_error else hmac_failed),
      record s { nonces = (check_and_add (nonce_key g h) t s.nonces).1 },
    )
    after =
        verify_of_dict g forged fs h t s parsed shown
        ∙ forged_state g fs h t s clear recent new wrong

    later : Verifier
    later = record s { nonces = (check_and_add (nonce_key g h) t s.nonces).1 }

    client : h'.client_id ≡ h.client_id
    client = ap (λ (k : offwork.Core.Nonces.Key). k.first) same

    seen : (check_and_add (nonce_key g h) now later.nonces).0 ≡ false
    seen =
        unfold run_checks in
        (check_and_add_replay (nonce_key g h) t now [] s.nonces tt (omega arith) young).0 new

    again :
        (verify_task_envelope g genuine now now (verify_task_envelope g forged t t s).1).0
        ≡ rejected replay
    again = rw after (
        rw (verify_of_dict g genuine fs' h' now later parsed' shown') (
          replayed g fs' h' now later
            (subst (λ c. is_revoked c s.clients ≡ false) (sym client) clear) recent'
            (subst (λ k. (check_and_add k now later.nonces).0 ≡ false) (sym same) seen)))
