-- ===== src/Examples/Core.antt =====
-- Runs of the model of offwork/core: the nonce cache, the registry, the task's dict, and Ed25519 over
-- a toy hash that returns its input.
use offwork.Base.{
  ℕ, ◌+◌, ◌≤◌, ◌≡◌, ◌≢◌, refl, true, false, none, some, List, [], ◌∷◌, arith, string_eq, pair_eq,
  length,
}
use offwork.Base.Dict.{has_key, lookup}
use offwork.Core.Bytes.{Bytes, Crypto, codes, fromhex, fromhex-hex, hex}
use offwork.Core.Json.{end, nil}
use offwork.Core.Nonces.{Key, NonceLru, fresh_lru, check_and_add, run_checks}
use offwork.Core.Nonces.Replay.{check_and_add_replay, check_and_add_bound}
use offwork.Core.Clients.{
  KnownClients, empty_registry, register_or_verify, identity_mismatch, register_entry, load,
}
use offwork.Core.Clients.Pins.{revoking, perform_all, register_pins, IsSaved}
use offwork.Core.Task.{Task, to_dict, from_dict}
use offwork.Core.Task.Wire.{from_dict-to_dict}
use offwork.Base.{ℕ, zero, suc, ◌%◌, ◌^◌, ◌<◌}
use offwork.Core.Bytes.{IsBytes, from_bytes}
use offwork.Core.Ed25519.{clamp, sign, drop, group_order}
use offwork.Core.Ed25519.Ranges.{clamp_range, sign_canonical, IsSha512}
use offwork.Core.Clients.Pins.{registering, perform, perform-IsSaved}
use offwork.Core.Values.{
  Value, mapping, entry, empty, named_tuple, more, nothing, number, bytes_like, byte_array,
}

abbrev key : Key
key = record { first = "alice"; second = "n1" }

abbrev lru : NonceLru
lru = fresh_lru 600 3

abbrev one_call : List (Key × ℕ)
one_call = (record { first = "bob"; second = "n1" }, 150) ∷ []

check_and_add_replay_example :
    ((check_and_add key 100 lru).0 ≡ true
      → (check_and_add key 700 (run_checks one_call (check_and_add key 100 lru).1)).0 ≡ false)
    × (has_key key lru.items ≡ false → (check_and_add key 100 lru).0 ≡ true)
check_and_add_replay_example =
    check_and_add_replay key 100 700 one_call lru (omega arith, tt) (omega arith) (omega arith)

check_and_add_bound_example :
    (length (check_and_add key 100 lru).1.items ≤ 3 + 1)
    × ((check_and_add key 100 lru).0 ≡ false → length (check_and_add key 100 lru).1.items ≤ 3)
check_and_add_bound_example = check_and_add_bound key 100 lru

abbrev clients : KnownClients
clients = empty_registry

fresh_client : (register_or_verify "alice" "aa" 1 empty_registry).0 ≢ identity_mismatch
unfolding register_or_verify register_entry lookup
fresh_client = λ e. cc e

register_pins_example :
    (register_or_verify "alice" "bb" 9
      (perform_all (revoking "alice" ∷ []) (register_or_verify "alice" "aa" 1 clients).1)).0
    ≡ identity_mismatch
unfolding string_eq
register_pins_example =
    register_pins clients "alice" "aa" "bb" 1 9 (revoking "alice" ∷ []) fresh_client

saved : IsSaved clients
unfolding load
saved = refl

abbrev job : Task
job = record {
  graph_json = "{}";
  function_name = "f";
  args = nil;
  kwargs = end;
  task_id = "t1";
  timeout = some 5000;
  retries = 2;
  retry_delay = 1000;
  scheduled_at = none;
  recur_interval = none;
  recur_deadline = none;
  recur_remaining = none;
  schedule_id = none;
  throttle = none;
  storage = true;
}

from_dict-to_dict_example : from_dict "fresh" (to_dict job) ≡ some job
from_dict-to_dict_example = from_dict-to_dict "fresh" job

abbrev two_bytes : Bytes
two_bytes = 255 ∷ 7 ∷ []

fromhex-hex_example : fromhex (codes (hex two_bytes)) ≡ some two_bytes
fromhex-hex_example = fromhex-hex two_bytes (omega arith, (omega arith, tt))

abbrev crypto : Crypto
crypto = record { sha512 = λ m. m; hmac_sha256 = λ _ _. []; utf8 = λ _. [] }

perform-IsSaved_example : IsSaved (perform (registering "alice" "aa" 1) clients)
perform-IsSaved_example = perform-IsSaved (registering "alice" "aa" 1) clients saved

abbrev sevens : ℕ → Bytes
sevens zero = []
sevens (suc n) = 7 ∷ sevens n

sevens-IsBytes : (n : ℕ) → IsBytes (sevens n)
sevens-IsBytes zero = tt
sevens-IsBytes (suc n) = (omega arith, sevens-IsBytes n)

abbrev constant_hash : Crypto
constant_hash = record { sha512 = λ _. sevens 64; hmac_sha256 = λ _ _. []; utf8 = λ _. [] }

hashes : IsSha512 constant_hash
hashes _ = (refl, sevens-IsBytes 64)

clamp_range_example :
    (n : ℕ) × (clamp (sevens 64) ≡ some n) × (n % 8 ≡ 0) × (2 ^ 254 ≤ n) × (n < 2 ^ 255)
clamp_range_example = clamp_range (sevens 64) (omega arith) (sevens-IsBytes 64)

sign_canonical_example :
    (signature : Bytes) × (sign constant_hash two_bytes (sevens 32) ≡ some signature)
    × (length signature ≡ 64)
    × (from_bytes (drop 32 signature) < group_order)
sign_canonical_example = sign_canonical constant_hash two_bytes (sevens 32) hashes refl

-- A dict with a namedtuple and a bytearray.
abbrev sent_value : Value
sent_value = mapping (
    entry "point" (named_tuple "Point" ("x" ∷ []) (more (number 5) nothing))
      (entry "raw" (bytes_like byte_array "AAE=") empty))
