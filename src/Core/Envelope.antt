-- ===== src/Core/Envelope.antt =====
-- offwork/core/envelope.py, with `derive_key`, `compute_signature` and `verify_signature` of
-- offwork/core/signing.py. `verify_task_envelope` is a chain of checks over the registry of clients
-- and the nonce cache; each check is a definition that goes on with the next.
pub mod Nonces
pub mod Sound
pub mod Once
pub mod Honest
pub mod Burnt
use offwork.Base.{
  ℕ, ◌-◌, String, ◌<>◌, ◌≡◌, Bool, true, false, not, ◌&&◌, ◌||◌, Option, none, some, List, [], ◌∷◌,
  ltb, leb, ◌==◌, string_eq, if◌then◌else◌,
}
use offwork.Core.Bytes.{Bytes, Crypto, codes, fromhex, hex}
use offwork.Core.Json.{Json, bool, num, nan, str, dict, Fields, get_field, set_field, without_two}
use offwork.Core.Nonces.{NonceLru, check_and_add}
use offwork.Core.Clients.{
  KnownClients, is_revoked, register_or_verify, Registered, new_client, known_client,
  identity_mismatch,
}
use offwork.Core.Task.{Task, to_dict, from_dict}

-- The signatures that the envelope needs: `sign` and `verify` of offwork/core/ed25519.py.
pub record Scheme : Type 0 where
  pub sign : (message seed : Bytes) → Option Bytes
  pub verify : (message signature public_key : Bytes) → Bool

-- The json module: `loads` of a text, `dumps` of a dict, and `dumps` with sorted keys.
pub record JsonText : Type 0 where
  pub loads : String → Option Json
  pub dumps : Fields → String
  pub dumps_sorted : Fields → String

-- The exceptions of `verify_task_envelope`. The first group is SignatureError and its subclasses.
pub data Rejection : Type 0 where
  invalid_json missing_id missing_key missing_signature missing_iat hmac_failed malformed_key
        ed25519_failed :
      Rejection
  client_revoked stale_task replay wrong_identity : Rejection
  attribute_error type_error key_error : Rejection

pub data Verdict : Type 0 where
  accepted : Task → Verdict
  rejected : Rejection → Verdict

-- `iat` as a float: a NaN is one.
pub data Stamp : Type 0 where
  at : ℕ → Stamp
  not_a_number : Stamp

pub record Header : Type 0 where
  pub client_id : String
  pub nonce : String
  pub pubkey : String
  pub ed_sig : String
  pub hmac_sig : String
  pub iat : Stamp

abbrev pub str_of : Option Json → Option String
str_of (some (str s)) = some s
str_of _ = none

-- `isinstance(iat, (int, float))`; a bool is an int, and times are in milliseconds. The OverflowError
-- of `float(iat)` for an int above 2 ** 1024 is not told from a stale time.
abbrev pub stamp_of : Option Json → Option Stamp
stamp_of (some (num n)) = some (at n)
stamp_of (some nan) = some not_a_number
stamp_of (some (bool b)) = some (at (if b then 1000 else 0))
stamp_of _ = none

pub data Headed : Type 0 where
  headed : Header → Headed
  unheaded : Rejection → Headed

unfoldable pub make_header :
    Option String
    → Option String
    → Option String
    → Option String
    → Option String
    → Option Stamp
    → Headed
make_header none _ _ _ _ _ = unheaded missing_id
make_header (some c) none _ _ _ _ = unheaded missing_id
make_header (some c) (some n) none _ _ _ = unheaded missing_key
make_header (some c) (some n) (some p) none _ _ = unheaded missing_key
make_header (some c) (some n) (some p) (some e) none _ = unheaded missing_signature
make_header (some c) (some n) (some p) (some e) (some h) none = unheaded missing_iat
make_header (some c) (some n) (some p) (some e) (some h) (some i) =
    headed (record { client_id = c; nonce = n; pubkey = p; ed_sig = e; hmac_sig = h; iat = i })

unfoldable pub read_header : Fields → Headed
read_header fs =
    make_header (str_of (get_field "client_id" fs)) (str_of (get_field "nonce" fs))
      (str_of (get_field "pubkey" fs)) (str_of (get_field "ed_sig" fs))
      (str_of (get_field "signature" fs)) (stamp_of (get_field "iat" fs))

-- `abs(t - float(iat)) > clock_skew`, which is False for a NaN.
unfoldable pub is_stale : ℕ → ℕ → Stamp → Bool
is_stale clock_skew now (at iat) = ltb clock_skew (now - iat) || ltb clock_skew (iat - now)
is_stale clock_skew now not_a_number = false

abbrev pub is_ascii : List ℕ → Bool
is_ascii [] = true
is_ascii (c ∷ cs) = leb c 127 && is_ascii cs

-- `t` is the time of the checks, `clock` the reading of the registry's own `time.time()`.
pub record Setting : Type 0 where
  pub crypto : Crypto
  pub scheme : Scheme
  pub text : JsonText
  pub root_token : Bytes
  pub clock_skew : ℕ

pub record Verifier : Type 0 where
  pub clients : KnownClients
  pub nonces : NonceLru

module _ (g : Setting) where
  open g use {crypto, scheme, text, root_token, clock_skew}

  -- `derive_key` under the context of the client.
  unfoldable pub per_client_key : String → Bytes
  per_client_key client_id =
      crypto.hmac_sha256 root_token (crypto.utf8 ("offwork-v1|client:" <> client_id))

  unfoldable pub compute_signature : String → Bytes → String
  compute_signature payload key = hex (crypto.hmac_sha256 key (crypto.utf8 payload))

  unfoldable pub canonical_payload : Fields → String
  canonical_payload fs = text.dumps_sorted (without_two "signature" "ed_sig" fs)

  -- The `Task(…)` at the end. The code does not look at the types of the fields; here a field of a
  -- type that no client writes is a `key_error` like a missing one.
  unfoldable pub make_task : Option Task → Verdict
  make_task none = rejected key_error
  make_task (some t) = accepted t

  unfoldable pub check_pin : Fields → Registered × KnownClients → NonceLru → Verdict × Verifier
  check_pin fs (identity_mismatch, clients) nonces =
      (rejected wrong_identity, record { clients = clients; nonces = nonces })
  check_pin fs (new_client, clients) nonces =
      (make_task (from_dict "" fs), record { clients = clients; nonces = nonces })
  check_pin fs (known_client, clients) nonces =
      (make_task (from_dict "" fs), record { clients = clients; nonces = nonces })

  unfoldable pub check_ed25519 :
      Fields → Header → ℕ → Option Bytes → Option Bytes → Verifier → Verdict × Verifier
  check_ed25519 fs h clock (some pubkey) (some ed_sig) s =
      if scheme.verify (crypto.utf8 (canonical_payload fs)) ed_sig pubkey
      then check_pin fs (register_or_verify h.client_id h.pubkey clock s.clients) s.nonces
      else (rejected ed25519_failed, s)
  check_ed25519 fs h clock _ _ s = (rejected malformed_key, s)

  -- `hmac.compare_digest` of two texts raises a TypeError unless both are ASCII.
  unfoldable pub check_hmac : Fields → Header → ℕ → Verifier → Verdict × Verifier
  check_hmac fs h clock s =
      if not (is_ascii (codes h.hmac_sig))
      then (rejected type_error, s)
      else if compute_signature (canonical_payload fs) (per_client_key h.client_id) == h.hmac_sig
      then check_ed25519 fs h clock (fromhex (codes h.pubkey)) (fromhex (codes h.ed_sig)) s
      else (rejected hmac_failed, s)

  unfoldable pub check_replay :
      Fields → Header → ℕ → Bool × NonceLru → Verifier → Verdict × Verifier
  check_replay fs h clock (false, nonces) s = (rejected replay, record s { nonces = nonces })
  check_replay fs h clock (true, nonces) s = check_hmac fs h clock (record s { nonces = nonces })

  abbrev pub nonce_key : Header → offwork.Core.Nonces.Key
  nonce_key h = record { first = h.client_id; second = h.nonce }

  unfoldable pub check_header : Fields → Headed → (t clock : ℕ) → Verifier → Verdict × Verifier
  check_header fs (unheaded e) t clock s = (rejected e, s)
  check_header fs (headed h) t clock s =
      if is_revoked h.client_id s.clients
      then (rejected client_revoked, s)
      else if is_stale clock_skew t h.iat
      then (rejected stale_task, s)
      else check_replay fs h clock (check_and_add (nonce_key h) t s.nonces) s

  -- A JSON value that is no dict has no `get`: that is an AttributeError.
  unfoldable pub check_json : Option Json → (t clock : ℕ) → Verifier → Verdict × Verifier
  check_json none t clock s = (rejected invalid_json, s)
  check_json (some (dict fs)) t clock s = check_header fs (read_header fs) t clock s
  check_json (some _) t clock s = (rejected attribute_error, s)

  unfoldable pub verify_task_envelope : String → (t clock : ℕ) → Verifier → Verdict × Verifier
  verify_task_envelope envelope_json t clock s = check_json (text.loads envelope_json) t clock s

  -- The body that the client signs: the task's dict with the four keys of the sender.
  unfoldable pub envelope_body : Task → String → ℕ → String → Bytes → Fields
  envelope_body task client_id now nonce public_key = set_field "pubkey" (str (hex public_key)) (
      set_field "nonce" (str nonce)
        (set_field "iat" (num now) (set_field "client_id" (str client_id) (to_dict task))))

  unfoldable pub add_signatures : Fields → String → Option Bytes → Option Fields
  add_signatures body signature none = none
  add_signatures body signature (some ed_sig) =
      some (set_field "ed_sig" (str (hex ed_sig)) (set_field "signature" (str signature) body))

  -- `build_signed_envelope`, before the last `json.dumps`. The nonce is `os.urandom(8).hex()`;
  -- `none` is the ValueError of a seed of the wrong length.
  unfoldable pub signed_fields :
      Task → String → ℕ → String → (seed public_key : Bytes) → Option Fields
  signed_fields task client_id now nonce seed public_key =
      let body = envelope_body task client_id now nonce public_key in
      let payload = text.dumps_sorted body in
      add_signatures body (compute_signature payload (per_client_key client_id))
        (scheme.sign (crypto.utf8 payload) seed)
