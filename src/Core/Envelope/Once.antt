-- ===== src/Core/Envelope/Once.antt =====
-- Replayed envelopes and `verify_task_envelope` of offwork/core/envelope.py.
use offwork.Base.{
  ℕ, ◌+◌, ◌≤◌, ◌<◌, String, ◌≡◌, ◌≢◌, refl, true, false, Option, none, some, List, [], ◌∷◌, arith,
  string_eq, length, ap, ◌∙◌, sym, subst,
}
use mathlib.Core.Option.{some-injective}
use offwork.Core.Json.{Json, dict}
use offwork.Core.Nonces.{check_and_add, run_checks}
use offwork.Core.Nonces.Replay.{check_and_add_replay}
use offwork.Core.Task.{Task}
use offwork.Core.Envelope.{
  Setting, Verifier, Header, Headed, headed, accepted, Stamp, at, not_a_number, read_header,
  is_stale, nonce_key, verify_task_envelope, check_json,
}
use offwork.Core.Envelope.Sound.{verify_sound}
use offwork.Core.Envelope.Nonces.{receive_all, AllBefore, receive_all-calls, nonces-check_header}

-- The header that an envelope shows, if it is a JSON dict with all its parts.
abbrev header_of : Option Json → Option Headed
header_of (some (dict fs)) = some (read_header fs)
header_of _ = none

header-injective : {a b : Header} → headed a ≡ headed b → a ≡ b
header-injective {a} {b} e = ap pick e
  where
    pick : Headed → Header
    pick (headed h) = h
    pick _ = a

never_both :
    (skew ttl t now iat : ℕ)
    → skew + skew ≤ ttl
    → is_stale skew t (at iat) ≡ false
    → is_stale skew now (at iat) ≡ false
    → now ≤ t + ttl
unfolding is_stale
never_both skew ttl t now iat wide first second = ground arith

numeric_young :
    (skew ttl t now : ℕ) (i : Stamp)
    → skew + skew ≤ ttl
    → i ≢ not_a_number
    → is_stale skew t i ≡ false
    → is_stale skew now i ≡ false
    → now ≤ t + ttl
numeric_young skew ttl t now (at iat) wide numeric first second =
    never_both skew ttl t now iat wide first second
numeric_young skew ttl t now not_a_number wide numeric first second = absurd (numeric refl)

AllBefore-mono : (a b : ℕ) (mail : List (String × ℕ)) → a ≤ b → AllBefore a mail → AllBefore b mail
AllBefore-mono a b [] h before = tt
AllBefore-mono a b ((e, t) ∷ mail) h before = (omega arith, AllBefore-mono a b mail h before.1)

module _ (g : Setting) (envelope_json : String) (t : ℕ) (s : Verifier) (task : Task) where
  -- The cache after an accepted envelope has its nonce.
  nonces_after :
      (verify_task_envelope g envelope_json t t s).0 ≡ accepted task
      → (h : Header) × (header_of (g.text.loads envelope_json) ≡ some (headed h))
        × (is_stale g.clock_skew t h.iat ≡ false)
        × ((check_and_add (nonce_key g h) t s.nonces).0 ≡ true)
        × ((verify_task_envelope g envelope_json t t s).1.nonces
            ≡ (check_and_add (nonce_key g h) t s.nonces).1)
  unfolding verify_task_envelope check_json
  nonces_after ok =
      let (fs, parsed, passed) = verify_sound g envelope_json t t s task ok in
      (
        passed.header,
        rw parsed (ap some passed.header_read),
        passed.not_stale,
        passed.nonce_new,
        rw (parsed, passed.header_read)
            (nonces-check_header g fs passed.header t t s passed.not_revoked passed.not_stale),
      )

-- If the cache remembers nonces for twice the clock skew, as the defaults of 600 and 300 seconds do,
-- then an envelope with a numeric timestamp that was accepted at time `t` is not accepted again at
-- any time `now`, when fewer envelopes than the capacity have come in between, none after `now`.
pub accepted_once :
    (g : Setting) (envelope_json : String) (t now : ℕ) (mail : List (String × ℕ)) (s : Verifier)
    (task again : Task)
    → g.clock_skew + g.clock_skew ≤ s.nonces.ttl
    → AllBefore now mail
    → length mail < s.nonces.capacity
    → ((h : Header)
        → header_of (g.text.loads envelope_json) ≡ some (headed h)
        → h.iat ≢ not_a_number)
    → (verify_task_envelope g envelope_json t t s).0 ≡ accepted task
    → (verify_task_envelope g envelope_json now now
        (receive_all g mail (verify_task_envelope g envelope_json t t s).1)).0
      ≢ accepted again
accepted_once g envelope_json t now mail s task again wide before few numeric first second =
    let (h, shown, fresh, new, cached) = nonces_after g envelope_json t s task first in
    let (h', shown', fresh', new', _) = nonces_after g envelope_json now later again second in
    let same : h' ≡ h =
      header-injective (some-injective (headed h') (headed h) (sym shown' ∙ shown)) in
    let young : now ≤ t + s.nonces.ttl =
      numeric_young g.clock_skew s.nonces.ttl t now h.iat wide (numeric h shown) fresh
        (subst (λ k. is_stale g.clock_skew now k.iat ≡ false) same fresh') in
    let (calls, asked, within, fewer) =
      receive_all-calls g (t + s.nonces.ttl) mail (verify_task_envelope g envelope_json t t s).1
        (AllBefore-mono now (t + s.nonces.ttl) mail young before) in
    let seen : (check_and_add (nonce_key g h) now
          (run_checks calls (check_and_add (nonce_key g h) t s.nonces).1)).0
        ≡ false =
      (check_and_add_replay (nonce_key g h) t now calls s.nonces within (omega arith) young).0
        new in
    let nonces : later.nonces ≡ run_checks calls (check_and_add (nonce_key g h) t s.nonces).1 =
      asked ∙ ap (run_checks calls) cached in
    let accepts : (check_and_add (nonce_key g h) now later.nonces).0 ≡ true =
      subst (λ k. (check_and_add (nonce_key g k) now later.nonces).0 ≡ true) same new' in
    let clash = rw nonces at accepts in cc (seen, clash)
  where
    later : Verifier
    later = receive_all g mail (verify_task_envelope g envelope_json t t s).1
