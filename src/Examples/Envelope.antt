-- ===== src/Examples/Envelope.antt =====
-- Envelopes received by a worker. The toy crypto hashes everything to nothing and its Ed25519 accepts
-- every signature; every text but "forged" reads as the genuine envelope.
use offwork.Base.{
  ℕ, String, ◌≡◌, ◌≢◌, refl, ap, sym, ◌∙◌, true, false, Option, none, some, [], arith, string_eq,
  pair_eq, nat_eq, ◌==◌, if◌then◌else◌,
}
use offwork.Core.Bytes.{Crypto, codes, hex, fromhex}
use offwork.Core.Json.{
  Json, str, num, dict, Fields, end, nil, field, get_field, set_field, truthy, opt_field,
}
use offwork.Core.Nonces.{fresh_lru, check_and_add, evict}
use offwork.Core.Clients.{
  empty_registry, register_or_verify, identity_mismatch, is_revoked, register_entry,
}
use offwork.Base.Dict.{lookup, has_key}
use offwork.Core.Task.{Task, to_dict, from_dict}
use offwork.Core.Envelope.{
  Scheme, Setting, Verifier, Header, Headed, headed, accepted, rejected, replay, Stamp, at,
  not_a_number, read_header, make_header, check_json, check_header, check_replay, check_hmac,
  check_ed25519, compute_signature, canonical_payload, per_client_key, check_pin, make_task,
  add_signatures, is_stale, verify_task_envelope, signed_fields, envelope_body,
}
use offwork.Core.Envelope.Nonces.{receive_all}
use offwork.Core.Envelope.Sound.{Passed, verify_sound}
use offwork.Core.Envelope.Once.{accepted_once}
use offwork.Core.Envelope.Honest.{honest_verdict}
use offwork.Core.Envelope.Burnt.{IsForged, forged_burns_nonce}

abbrev crypto : Crypto
crypto = record { sha512 = λ _. []; hmac_sha256 = λ _ _. []; utf8 = λ _. [] }

abbrev scheme : Scheme
scheme = record { sign = λ _ _. some []; verify = λ _ _ _. true }

abbrev job : Task
job = record {
  graph_json = "{}";
  function_name = "f";
  args = nil;
  kwargs = end;
  task_id = "t1";
  timeout = none;
  retries = 0;
  retry_delay = 1000;
  scheduled_at = none;
  recur_interval = none;
  recur_deadline = none;
  recur_remaining = none;
  schedule_id = none;
  throttle = none;
  storage = false;
}

-- The dict that "alice" signs at time 1000 with the given HMAC.
abbrev letter : String → Fields
letter signature = field "id" (str "t1") (
    field "graph" (str "{}") (
      field "function" (str "f") (
        field "args" (Json.list nil) (
          field "kwargs" (dict end) (
            field "client_id" (str "alice") (
              field "iat" (num 1000) (
                field "nonce" (str "n1") (
                  field "pubkey" (str "")
                    (field "signature" (str signature) (field "ed_sig" (str "") end))))))))))

abbrev setting : Setting
setting = record {
  crypto = crypto;
  scheme = scheme;
  text = record {
    loads = λ e. some (dict (letter (if e == "forged" then "00" else "")));
    dumps = λ _. "mail";
    dumps_sorted = λ _. "payload";
  };
  root_token = [];
  clock_skew = 300;
}

abbrev worker : Verifier
worker = record { clients = empty_registry; nonces = fresh_lru 600 5 }

abbrev sender : String → Header
sender signature = record {
  client_id = "alice";
  nonce = "n1";
  pubkey = "";
  ed_sig = "";
  hmac_sig = signature;
  iat = at 1000;
}

shown : (signature : String) → read_header (letter signature) ≡ headed (sender signature)
unfolding read_header make_header get_field string_eq
shown signature = refl

received : (verify_task_envelope setting "mail" 1000 1000 worker).0 ≡ accepted job
unfolding verify_task_envelope check_json check_header read_header make_header get_field string_eq
    is_revoked is_stale check_and_add evict lookup has_key check_replay check_hmac check_ed25519
    compute_signature canonical_payload per_client_key codes hex fromhex check_pin make_task
    register_or_verify register_entry from_dict truthy
received = refl

verify_sound_example :
    (fs : Fields) × (setting.text.loads "mail" ≡ some (dict fs))
    × Passed setting fs job 1000 1000 worker
        (verify_task_envelope setting "mail" 1000 1000 worker).1.clients
verify_sound_example = verify_sound setting "mail" 1000 1000 worker job received

-- The timestamp of a header that was read.
abbrev stamp_in : Option Headed → Stamp
stamp_in (some (headed h)) = h.iat
stamp_in _ = not_a_number

apart : (n : ℕ) → at n ≢ not_a_number
apart n = λ e. cc e

numeric : (h : Header) → some (read_header (letter "")) ≡ some (headed h) → h.iat ≢ not_a_number
numeric h e =
    let iat : at 1000 ≡ h.iat = ap stamp_in (sym (ap some (shown "")) ∙ e) in
    λ nan. apart 1000 (iat ∙ nan)

accepted_once_example :
    (verify_task_envelope setting "mail" 1500 1500
      (receive_all setting [] (verify_task_envelope setting "mail" 1000 1000 worker).1)).0
    ≢ accepted job
unfolding string_eq
accepted_once_example =
    accepted_once setting "mail" 1000 1500 [] worker job job (omega arith) tt (omega arith) numeric
      received

clear : is_revoked "alice" worker.clients ≡ false
unfolding is_revoked lookup
clear = refl

recent : is_stale 300 1000 (at 1000) ≡ false
unfolding is_stale
recent = refl

recent_later : is_stale 300 1001 (at 1000) ≡ false
unfolding is_stale
recent_later = refl

new_nonce : (check_and_add (record { first = "alice"; second = "n1" }) 1000 worker.nonces).0 ≡ true
unfolding check_and_add evict has_key
new_nonce = refl

unpinned : (register_or_verify "alice" (hex []) 1000 worker.clients).0 ≢ identity_mismatch
unfolding register_or_verify register_entry lookup hex
unpinned = λ e. cc e

built : signed_fields setting job "alice" 1000 "n1" [] [] ≡ some (letter "")
unfolding signed_fields add_signatures envelope_body to_dict compute_signature per_client_key hex
    set_field string_eq opt_field
built = refl

parsed : setting.text.loads "mail" ≡ some (dict (letter ""))
unfolding string_eq
parsed = refl

honest_verdict_example : (verify_task_envelope setting "mail" 1000 1000 worker).0 ≡ accepted job
honest_verdict_example =
    honest_verdict setting job "alice" 1000 "n1" [] [] [] worker 1000 1000 (letter "") built parsed
      refl tt tt clear recent new_nonce unpinned

parsed_forged : setting.text.loads "forged" ≡ some (dict (letter "00"))
unfolding string_eq
parsed_forged = refl

wrong_mac : IsForged setting (letter "00") (sender "00")
unfolding compute_signature canonical_payload per_client_key hex string_eq
wrong_mac = refl

forged_burns_nonce_example :
    ((task : Task) → (verify_task_envelope setting "forged" 1000 1000 worker).0 ≢ accepted task)
    × ((verify_task_envelope setting "mail" 1001 1001
          (verify_task_envelope setting "forged" 1000 1000 worker).1).0
        ≡ rejected replay)
forged_burns_nonce_example =
    forged_burns_nonce setting "forged" "mail" (letter "00") (letter "") (sender "00") (sender "")
      1000 1001 worker parsed_forged (shown "00") parsed (shown "") refl clear recent recent_later
      new_nonce wrong_mac (omega arith) (omega arith)
