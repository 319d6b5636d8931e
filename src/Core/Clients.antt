-- ===== src/Core/Clients.antt =====
-- `class KnownClients` of offwork/core/clients.py: the registry of pinned keys, with its file. Each
-- method holds the lock, so it is one step. `now` is `time.time()` when the method runs.
pub mod Pins
use offwork.Base.{
  ℕ, String, Bool, true, false, not, ◌&&◌, Option, none, some, List, [], ◌∷◌, map, ◌==◌, string_eq,
  if◌then◌else◌,
}
use offwork.Base.Dict.{Dict, lookup, insert}

pub record ClientEntry : Type 0 where
  pub client_id : String
  pub pubkey : String
  pub first_seen : ℕ
  pub last_seen : ℕ
  pub revoked : Bool

-- What `json.loads` makes of the file: it may be missing, unreadable or no dict, and a row that is not a
-- `ClientEntry` is `none`. The file lists its rows by client id, an order that no lookup sees.
pub data File : Type 0 where
  absent unreadable no_dict : File
  rows : Dict String (Option ClientEntry) → File

pub record KnownClients : Type 0 where
  pub entries : Dict String ClientEntry
  pub file : File

-- The loop of `_load`: malformed rows are dropped.
unfoldable pub load_rows : Dict String (Option ClientEntry) → Dict String ClientEntry
load_rows [] = []
load_rows ((cid, none) ∷ rest) = load_rows rest
load_rows ((cid, some e) ∷ rest) = (cid, e) ∷ load_rows rest

-- `none` is the AttributeError of a JSON value that has no `items`.
unfoldable pub load : File → Option (Dict String ClientEntry)
unfolding load_rows
load absent = some []
load unreadable = some []
load no_dict = none
load (rows r) = some (load_rows r)

abbrev pub opened : File → Option (Dict String ClientEntry) → Option KnownClients
opened file none = none
opened file (some entries) = some (record { entries = entries; file = file })

-- `__init__`
unfoldable pub open_registry : File → Option KnownClients
unfolding load
open_registry file = opened file (load file)

-- `__init__` of an installation that has no file yet.
abbrev pub empty_registry : KnownClients
empty_registry = record { entries = []; file = absent }

unfoldable pub dump_rows : Dict String ClientEntry → Dict String (Option ClientEntry)
dump_rows [] = []
dump_rows ((cid, e) ∷ rest) = (cid, some e) ∷ dump_rows rest

-- `_save_locked`
unfoldable pub save : Dict String ClientEntry → KnownClients
unfolding dump_rows
save entries = record { entries = entries; file = rows (dump_rows entries) }

pub data Registered : Type 0 where
  new_client known_client identity_mismatch : Registered

unfoldable pub register_entry :
    String → String → ℕ → Option ClientEntry → KnownClients → Registered × KnownClients
unfolding save
register_entry client_id pubkey now none k =
    let entry : ClientEntry = record {
      client_id = client_id;
      pubkey = pubkey;
      first_seen = now;
      last_seen = now;
      revoked = false;
    } in
    (new_client, save (insert client_id entry k.entries))
register_entry client_id pubkey now (some entry) k =
    if entry.pubkey == pubkey
    then (known_client, save (insert client_id (record entry { last_seen = now }) k.entries))
    else (identity_mismatch, k)

-- `identity_mismatch` is the IdentityMismatchError.
unfoldable pub register_or_verify : String → String → ℕ → KnownClients → Registered × KnownClients
unfolding register_entry
register_or_verify client_id pubkey now k =
    register_entry client_id pubkey now (lookup client_id k.entries) k

abbrev pub entry_revoked : Option ClientEntry → Bool
entry_revoked none = false
entry_revoked (some e) = e.revoked

unfoldable pub is_revoked : String → KnownClients → Bool
is_revoked client_id k = entry_revoked (lookup client_id k.entries)

-- `revoke` and `approve` return whether they changed anything.
unfoldable pub revoke_entry : String → Option ClientEntry → KnownClients → Bool × KnownClients
unfolding save
revoke_entry client_id none k = (false, k)
revoke_entry client_id (some e) k =
    if e.revoked
    then (false, k)
    else (true, save (insert client_id (record e { revoked = true }) k.entries))

unfoldable pub revoke : String → KnownClients → Bool × KnownClients
unfolding revoke_entry
revoke client_id k = revoke_entry client_id (lookup client_id k.entries) k

unfoldable pub approve_entry : String → Option ClientEntry → KnownClients → Bool × KnownClients
unfolding save
approve_entry client_id none k = (false, k)
approve_entry client_id (some e) k =
    if not e.revoked
    then (false, k)
    else (true, save (insert client_id (record e { revoked = false }) k.entries))

unfoldable pub approve : String → KnownClients → Bool × KnownClients
unfolding approve_entry
approve client_id k = approve_entry client_id (lookup client_id k.entries) k
