-- ===== src/Core/Nonces.antt =====
-- `class NonceLRU` of offwork/core/signing.py. Times are natural numbers of milliseconds, and the
-- lock makes each call one step.
pub mod Replay
use offwork.Base.{
  ℕ, suc, ◌+◌, ◌-◌, String, Bool, true, false, List, [], ◌∷◌, ltb, Pair, pair_eq, string_eq,
  if◌then◌else◌, length,
}
use offwork.Base.Dict.{Dict, insert, has_key}

-- `(client_id, nonce)`
abbrev pub Key : Type 0
Key = Pair String String

pub record NonceLru : Type 0 where
  pub ttl : ℕ
  pub capacity : ℕ
  pub items : Dict Key ℕ

abbrev pub fresh_lru : ℕ → ℕ → NonceLru
fresh_lru ttl capacity = record { ttl = ttl; capacity = capacity; items = [] }

-- The first loop of `_evict`: it drops the oldest items while they have expired.
unfoldable pub evict_expired : ℕ → ℕ → Dict Key ℕ → Dict Key ℕ
evict_expired ttl now [] = []
evict_expired ttl now ((key, ts) ∷ items) =
    let rest = evict_expired ttl now items in if ltb ttl (now - ts) then rest else (key, ts) ∷ items

-- The second loop: it drops the oldest items while there are too many.
unfoldable pub evict_excess : ℕ → Dict Key ℕ → Dict Key ℕ
evict_excess capacity [] = []
evict_excess capacity ((key, ts) ∷ items) =
    let rest = evict_excess capacity items in
    if ltb capacity (suc (length items)) then rest else (key, ts) ∷ items

unfoldable pub evict : ℕ → NonceLru → NonceLru
unfolding evict_expired evict_excess
evict now lru = record lru {
  items = evict_excess lru.capacity (evict_expired lru.ttl now lru.items);
}

unfoldable pub check_and_add : Key → ℕ → NonceLru → Bool × NonceLru
unfolding evict
check_and_add key now lru =
    let kept = evict now lru in
    if has_key key kept.items
    then (false, kept)
    else (true, record kept { items = insert key now kept.items })

-- A sequence of calls, each a key and the time of the call.
unfoldable pub run_checks : List (Key × ℕ) → NonceLru → NonceLru
run_checks [] lru = lru
run_checks ((key, now) ∷ calls) lru = run_checks calls (check_and_add key now lru).1
