-- ===== src/Core/Clients/Pins.antt =====
-- Properties of the registry of offwork/core/clients.py under any sequence of its calls.
use offwork.Base.{
  ℕ, String, ◌≡◌, ◌≢◌, refl, true, false, Option, none, some, List, [], ◌∷◌, arith, ◌==◌, string_eq,
  if◌then◌else◌, ==_refl, ap, ◌∙◌,
}
use offwork.Base.Dict.{Dict, lookup, insert, lookup-insert}
use offwork.Core.Clients.{
  ClientEntry, KnownClients, load, dump_rows, save, known_client, identity_mismatch,
  register_or_verify, revoke, approve, load_rows, register_entry, revoke_entry, approve_entry,
}

-- The public key that a client is pinned to.
abbrev pub pin_of : Option ClientEntry → Option String
pin_of none = none
pin_of (some e) = some e.pubkey

abbrev pub pin : KnownClients → String → Option String
pin k client_id = pin_of (lookup client_id k.entries)

-- The calls that change a registry.
pub data Call : Type 0 where
  registering : (client_id pubkey : String) (now : ℕ) → Call
  revoking approving : String → Call

unfoldable pub perform : Call → KnownClients → KnownClients
perform (registering client_id pubkey now) k = (register_or_verify client_id pubkey now k).1
perform (revoking client_id) k = (revoke client_id k).1
perform (approving client_id) k = (approve client_id k).1

load_rows-dump : (d : Dict String ClientEntry) → load_rows (dump_rows d) ≡ d
unfolding load_rows dump_rows
load_rows-dump [] = refl
load_rows-dump ((cid, e) ∷ d) = ap (λ r. (cid, e) ∷ r) (load_rows-dump d)

-- The file, read again, gives the entries.
abbrev pub IsSaved : KnownClients → Type 0
IsSaved k = load k.file ≡ some k.entries

save-IsSaved : (d : Dict String ClientEntry) → IsSaved (save d)
unfolding save load
save-IsSaved d = ap some (load_rows-dump d)

-- Whatever calls come, a registry that was in step with its file stays so: a restarted worker knows
-- the same clients.
pub perform-IsSaved : (call : Call) (k : KnownClients) → IsSaved k → IsSaved (perform call k)
unfolding perform register_or_verify register_entry revoke approve revoke_entry approve_entry
perform-IsSaved (registering client_id pubkey now) k h = registered (lookup client_id k.entries)
  where
    registered : (o : Option ClientEntry) → IsSaved (register_entry client_id pubkey now o k).1
    registered none = save-IsSaved _
    registered (some e) =
        ground (arith, save-IsSaved (insert client_id (record e { last_seen = now }) k.entries))
perform-IsSaved (revoking client_id) k h = changed (lookup client_id k.entries)
  where
    changed : (o : Option ClientEntry) → IsSaved (revoke_entry client_id o k).1
    changed none = h
    changed (some e) =
        ground (arith, save-IsSaved (insert client_id (record e { revoked = true }) k.entries))
perform-IsSaved (approving client_id) k h = changed (lookup client_id k.entries)
  where
    changed : (o : Option ClientEntry) → IsSaved (approve_entry client_id o k).1
    changed none = h
    changed (some e) =
        ground (arith, save-IsSaved (insert client_id (record e { revoked = false }) k.entries))

module _ (k : KnownClients) (c : String) where
  -- A write under `c` of an entry with the key of the entry that stands there keeps every pin.
  pin-insert :
      (old new : ClientEntry) (client_id : String)
      → lookup c k.entries ≡ some old
      → new.pubkey ≡ old.pubkey
      → pin_of (lookup client_id (insert c new k.entries)) ≡ pin k client_id
  pin-insert old new client_id there same = ground (arith, lookup-insert client_id c new k.entries)

  register-pin :
      (o : Option ClientEntry) (p : String) (now : ℕ) (client_id key : String)
      → lookup c k.entries ≡ o
      → pin k client_id ≡ some key
      → pin (register_entry c p now o k).1 client_id ≡ some key
  unfolding register_entry
  register-pin none p now client_id key there h = ground (
    arith,
    lookup-insert client_id c
        (record { client_id = c; pubkey = p; first_seen = now; last_seen = now; revoked = false })
        k.entries,
  )
  register-pin (some e) p now client_id key there h =
      ground (arith, pin-insert e (record e { last_seen = now }) client_id there refl)

  revoke-pin :
      (o : Option ClientEntry) (client_id : String)
      → lookup c k.entries ≡ o
      → pin (revoke_entry c o k).1 client_id ≡ pin k client_id
  unfolding revoke_entry
  revoke-pin none client_id there = refl
  revoke-pin (some e) client_id there =
      ground (arith, pin-insert e (record e { revoked = true }) client_id there refl)

  approve-pin :
      (o : Option ClientEntry) (client_id : String)
      → lookup c k.entries ≡ o
      → pin (approve_entry c o k).1 client_id ≡ pin k client_id
  unfolding approve_entry
  approve-pin none client_id there = refl
  approve-pin (some e) client_id there =
      ground (arith, pin-insert e (record e { revoked = false }) client_id there refl)

perform-pin :
    (call : Call) (k : KnownClients) (client_id key : String)
    → pin k client_id ≡ some key
    → pin (perform call k) client_id ≡ some key
unfolding perform register_or_verify revoke approve
perform-pin (registering c p now) k client_id key h =
    register-pin k c (lookup c k.entries) p now client_id key refl h
perform-pin (revoking c) k client_id key h = revoke-pin k c (lookup c k.entries) client_id refl ∙ h
perform-pin (approving c) k client_id key h =
    approve-pin k c (lookup c k.entries) client_id refl ∙ h

unfoldable pub perform_all : List Call → KnownClients → KnownClients
unfolding perform
perform_all [] k = k
perform_all (call ∷ calls) k = perform_all calls (perform call k)

perform_all-pin :
    (calls : List Call) (k : KnownClients) (client_id key : String)
    → pin k client_id ≡ some key
    → pin (perform_all calls k) client_id ≡ some key
unfolding perform_all
perform_all-pin [] k client_id key h = h
perform_all-pin (call ∷ calls) k client_id key h =
    perform_all-pin calls (perform call k) client_id key (perform-pin call k client_id key h)

verdict_of_pin :
    (o : Option ClientEntry) (k : KnownClients) (client_id p key : String) (now : ℕ)
    → pin_of o ≡ some key
    → (register_entry client_id p now o k).0
      ≡ (if key == p then known_client else identity_mismatch)
unfolding register_entry
verdict_of_pin none k client_id p key now h = absurd (cc)
verdict_of_pin (some e) k client_id p key now h = ground arith

pinned_by_new :
    (o : Option ClientEntry) (k : KnownClients) (client_id p : String) (now : ℕ)
    → lookup client_id k.entries ≡ o
    → (register_entry client_id p now o k).0 ≢ identity_mismatch
    → pin (register_entry client_id p now o k).1 client_id ≡ some p
unfolding register_entry
pinned_by_new none k client_id p now there ok = ground (
  arith,
  ==_refl client_id,
  lookup-insert client_id client_id
      (record {
        client_id = client_id;
        pubkey = p;
        first_seen = now;
        last_seen = now;
        revoked = false;
      })
      k.entries,
)
pinned_by_new (some e) k client_id p now there ok = ground (
  arith,
  ==_refl client_id,
  lookup-insert client_id client_id (record e { last_seen = now }) k.entries,
)

-- Trust on first use: a registration that succeeds pins the client to its key, and after any calls
-- a later registration of that client is recognised if it has the same key and is an
-- IdentityMismatchError otherwise.
pub register_pins :
    (k : KnownClients) (client_id key p : String) (first later : ℕ) (calls : List Call)
    → (register_or_verify client_id key first k).0 ≢ identity_mismatch
    → (register_or_verify client_id p later
        (perform_all calls (register_or_verify client_id key first k).1)).0
      ≡ (if key == p then known_client else identity_mismatch)
unfolding register_or_verify
register_pins k client_id key p first later calls ok =
    verdict_of_pin (lookup client_id k'.entries) k' client_id p key later (
      perform_all-pin calls _ client_id key
        (pinned_by_new (lookup client_id k.entries) k client_id key first refl ok))
  where
    k' : KnownClients
    k' = perform_all calls (register_entry client_id key first (lookup client_id k.entries) k).1
