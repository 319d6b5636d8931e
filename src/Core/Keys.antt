-- ===== src/Core/Keys.antt =====
-- The files of `~/.offwork`: offwork/core/token.py, offwork/core/identity.py, and the key files of
-- offwork/core/pairing.py. A text is its list of code points, as `read_text` gives it; random bytes are
-- arguments. The directory is created where it is missing.
pub mod RoundTrip
use offwork.Base.{
  ℕ, zero, suc, ◌+◌, ◌*◌, String, Bool, true, false, ◌&&◌, ◌||◌, Option, none, some, List, [], ◌∷◌,
  ◌++◌, leb, ◌=ℕ◌, ◌==◌, string_eq, if◌then◌else◌, is_some, length,
}
use offwork.Core.Bytes.{Bytes, codes, hex, fromhex}

abbrev pub Text : Type 0
Text = List ℕ

pub record KeyDir : Type 0 where
  pub token : Option Text
  pub client_key : Option Bytes
  pub worker_key : Option Bytes
  pub client_id : Option Text
  pub identity_key : Option Bytes

-- What `str.strip` takes away: the white space of Unicode.
unfoldable pub blank : ℕ → Bool
blank c =
    (leb 9 c && leb c 13)
    || (leb 28 c && leb c 32)
    || c =ℕ 133
    || c =ℕ 160
    || c =ℕ 5760
    || (leb 8192 c && leb c 8202)
    || c =ℕ 8232
    || c =ℕ 8233
    || c =ℕ 8239
    || c =ℕ 8287
    || c =ℕ 12288

unfoldable pub lstrip : Text → Text
lstrip [] = []
lstrip (c ∷ cs) = let rest = lstrip cs in if blank c then rest else c ∷ cs

abbrev is_empty : Text → Bool
is_empty [] = true
is_empty (c ∷ cs) = false

unfoldable pub rstrip : Text → Text
rstrip [] = []
rstrip (c ∷ cs) = let rest = rstrip cs in if blank c && is_empty rest then [] else c ∷ rest

abbrev pub strip : Text → Text
strip s = rstrip (lstrip s)

-- `_is_valid_token_hex` for 32 bytes, `_is_valid_client_id` for 16.
unfoldable pub is_valid_hex : ℕ → Text → Bool
is_valid_hex width s = length s =ℕ width * 2 && is_some (fromhex s)

-- `save_token`; none is the ValueError.
unfoldable pub save_token : Text → KeyDir → Option KeyDir
save_token token_hex d =
    if is_valid_hex 32 token_hex
    then some (record d { token = some (token_hex ++ 10 ∷ []) })
    else none

abbrev pub valid_token : Text → Option Text
valid_token s = if is_valid_hex 32 s then some s else none

-- `load_token`: the environment variable, then the file.
unfoldable pub load_token : Option Text → Option Text → Option Text
load_token (some env_val) file = valid_token (strip env_val)
load_token none (some content) = valid_token (strip content)
load_token none none = none

-- `clear_token`, `clear_shared_key` and `clear_identity` tell whether a file was there.
unfoldable pub clear_token : KeyDir → Bool × KeyDir
clear_token d = (is_some d.token, record d { token = none })

abbrev pub key_file : Bool → KeyDir → Option Bytes
key_file true d = d.client_key
key_file false d = d.worker_key

unfoldable pub save_shared_key : Bytes → String → KeyDir → KeyDir
save_shared_key shared_key role d =
    if role == "client"
    then record d { client_key = some shared_key }
    else record d { worker_key = some shared_key }

abbrev pub whole_key : Option Bytes → Option Bytes
whole_key none = none
whole_key (some key) = if length key =ℕ 32 then some key else none

unfoldable pub load_shared_key : String → KeyDir → Option Bytes
load_shared_key role d = whole_key (key_file (role == "client") d)

unfoldable pub clear_shared_key : String → KeyDir → Bool × KeyDir
clear_shared_key role d =
    if role == "client"
    then (is_some d.client_key, record d { client_key = none })
    else (is_some d.worker_key, record d { worker_key = none })

-- `resolve_root_token`; the token was found valid, so `fromhex` reads it.
abbrev pub token_or : Option Text → Option Bytes → Option Bytes
token_or (some token_hex) key = fromhex token_hex
token_or none key = key

unfoldable pub resolve_root_token : String → Option Text → KeyDir → Option Bytes
resolve_root_token role env d = token_or (load_token env d.token) (load_shared_key role d)

-- `get_client_id`: the file's id if it is valid, or a new one, which is written.
abbrev pub new_client_id : Bytes → KeyDir → Text × KeyDir
new_client_id random d =
    let cid = codes (hex random) in (cid, record d { client_id = some (cid ++ 10 ∷ []) })

abbrev pub client_id_from : Option Text → Bytes → KeyDir → Text × KeyDir
client_id_from none random d = new_client_id random d
client_id_from (some content) random d =
    if is_valid_hex 16 (strip content) then (strip content, d) else new_client_id random d

unfoldable pub get_client_id : Bytes → KeyDir → Text × KeyDir
get_client_id random d = client_id_from d.client_id random d

abbrev pub seed_from : Option Bytes → Bytes → KeyDir → Bytes × KeyDir
seed_from none random d = (random, record d { identity_key = some random })
seed_from (some seed) random d =
    if length seed =ℕ 32 then (seed, d) else (random, record d { identity_key = some random })

unfoldable pub get_identity_seed : Bytes → KeyDir → Bytes × KeyDir
get_identity_seed random d = seed_from d.identity_key random d

unfoldable pub clear_identity : KeyDir → Bool × KeyDir
clear_identity d = (
  is_some d.client_id || is_some d.identity_key,
  record d { client_id = none; identity_key = none },
)
