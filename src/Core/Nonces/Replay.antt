-- ===== src/Core/Nonces/Replay.antt =====
-- Properties of `NonceLRU` of offwork/core/signing.py under any sequence of calls.
use offwork.Base.{
  ℕ, suc, ◌+◌, ◌-◌, ◌≤◌, ◌<◌, ◌≡◌, ◌≢◌, ◌⊎◌, refl, true, false, List, [], ◌∷◌, ◌++◌, arith, ltb,
  pair_eq, string_eq, length, length-append, ap, Bool-cases, inl, inr, sym, subst, ◌∙◌,
}
use native.Mathlib.Nat.{add-zero}
use offwork.Base.Dict.{Dict, has_key, insert_new}
use offwork.Core.Nonces.{
  Key, NonceLru, evict_expired, evict_excess, evict, check_and_add, run_checks,
}

length-evict_excess :
    (capacity : ℕ) (items : Dict Key ℕ) → length (evict_excess capacity items) ≤ capacity
unfolding evict_excess
length-evict_excess capacity [] = omega arith
length-evict_excess capacity ((key, ts) ∷ items) =
    ground (arith, length-evict_excess capacity items)

-- Whatever it held, the cache holds at most one nonce more than its capacity after a call, and no
-- more than the capacity after a rejection.
pub check_and_add_bound :
    (key : Key) (now : ℕ) (lru : NonceLru)
    → (length (check_and_add key now lru).1.items ≤ lru.capacity + 1)
      × ((check_and_add key now lru).0 ≡ false
          → length (check_and_add key now lru).1.items ≤ lru.capacity)
unfolding check_and_add evict
check_and_add_bound key now lru = elim (Bool-cases (has_key key kept)) [
  | inl seen ↦ rw seen (omega (arith, bound), λ _. omega (arith, bound))
  | inr new ↦ rw new (
    omega (
      arith,
      bound,
      ap length (insert_new key now kept new),
      length-append kept ((key, now) ∷ []),
    ),
    λ h. absurd (cc),
  )
]
  where
    kept : Dict Key ℕ
    kept = evict_excess lru.capacity (evict_expired lru.ttl now lru.items)

    bound : length kept ≤ lru.capacity
    bound = length-evict_excess lru.capacity (evict_expired lru.ttl now lru.items)

-- `key` was recorded at time `t`, and at most `n` items are newer.
abbrev pub Holds : Key → ℕ → ℕ → Dict Key ℕ → Type 0
Holds key t n [] = ⊥
Holds key t n ((k, ts) ∷ items) =
    ((k ≡ key) × (ts ≡ t) × (length items ≤ n)) ⊎ ((k ≢ key) × Holds key t n items)

module _ (key : Key) (t : ℕ) where
  Holds-evict_expired :
      (ttl now n : ℕ) (items : Dict Key ℕ)
      → now ≤ t + ttl
      → Holds key t n items
      → Holds key t n (evict_expired ttl now items)
  unfolding evict_expired
  Holds-evict_expired ttl now n [] young h = h
  Holds-evict_expired ttl now n ((k, ts) ∷ items) young (inl (same, at, newer)) = ground arith
  Holds-evict_expired ttl now n ((k, ts) ∷ items) young (inr (other, h)) =
      elim (Bool-cases (ltb ttl (now - ts))) [
        | inl old ↦ rw old (Holds-evict_expired ttl now n items young h)
        | inr recent ↦ rw recent (inr (other, h))
      ]

  Holds-evict_excess :
      (capacity n : ℕ) (items : Dict Key ℕ)
      → n < capacity
      → Holds key t n items
      → Holds key t n (evict_excess capacity items)
  unfolding evict_excess
  Holds-evict_excess capacity n [] room h = h
  Holds-evict_excess capacity n ((k, ts) ∷ items) room (inl (same, at, newer)) = ground arith
  Holds-evict_excess capacity n ((k, ts) ∷ items) room (inr (other, h)) =
      elim (Bool-cases (ltb capacity (suc (length items)))) [
        | inl full ↦ rw full (Holds-evict_excess capacity n items room h)
        | inr fits ↦ rw fits (inr (other, h))
      ]

  Holds→has_key : (n : ℕ) (items : Dict Key ℕ) → Holds key t n items → has_key key items ≡ true
  unfolding has_key
  Holds→has_key n [] h = absurd h
  Holds→has_key n ((k, ts) ∷ items) (inl (same, _, _)) = ground arith
  Holds→has_key n ((k, ts) ∷ items) (inr (other, h)) = ground (arith, Holds→has_key n items h)

  -- A newer item stands behind.
  Holds-append :
      (n : ℕ) (items : Dict Key ℕ) (j : Key) (now : ℕ)
      → Holds key t n items
      → Holds key t (suc n) (items ++ (j, now) ∷ [])
  Holds-append n [] j now h = absurd h
  Holds-append n ((k, ts) ∷ items) j now (inl (same, at, newer)) =
      inl (same, at, omega (arith, length-append items ((j, now) ∷ [])))
  Holds-append n ((k, ts) ∷ items) j now (inr (other, h)) =
      inr (other, Holds-append n items j now h)

  Holds-weaken : (n : ℕ) (items : Dict Key ℕ) → Holds key t n items → Holds key t (suc n) items
  Holds-weaken n [] h = h
  Holds-weaken n ((k, ts) ∷ items) (inl (same, at, newer)) = inl (same, at, omega arith)
  Holds-weaken n ((k, ts) ∷ items) (inr (other, h)) = inr (other, Holds-weaken n items h)

  Holds-record :
      (items : Dict Key ℕ) → has_key key items ≡ false → Holds key t 0 (items ++ (key, t) ∷ [])
  unfolding has_key
  Holds-record [] new = inl (refl, refl, omega arith)
  Holds-record ((k, ts) ∷ items) new = inr (λ same. ground arith, Holds-record items (ground arith))

  Holds-evict :
      (n now : ℕ) (lru : NonceLru)
      → now ≤ t + lru.ttl
      → n < lru.capacity
      → Holds key t n lru.items
      → Holds key t n (evict now lru).items
  unfolding evict
  Holds-evict n now lru young room h =
      Holds-evict_excess lru.capacity n _ room (Holds-evict_expired lru.ttl now n lru.items young h)

  Holds-check :
      (n now : ℕ) (j : Key) (lru : NonceLru)
      → now ≤ t + lru.ttl
      → n < lru.capacity
      → Holds key t n lru.items
      → Holds key t (suc n) (check_and_add j now lru).1.items
  unfolding check_and_add
  Holds-check n now j lru young room h = elim (Bool-cases (has_key j (evict now lru).items)) [
    | inl seen ↦ rw seen (Holds-weaken n _ (Holds-evict n now lru young room h))
    | inr new ↦ rw new (
        rw (insert_new j now (evict now lru).items new)
          (Holds-append n _ j now (Holds-evict n now lru young room h)))
  ]

-- `ttl` and `capacity` never change.
check_and_add_limits :
    (j : Key) (now : ℕ) (lru : NonceLru)
    → ((check_and_add j now lru).1.ttl ≡ lru.ttl)
      × ((check_and_add j now lru).1.capacity ≡ lru.capacity)
unfolding check_and_add evict
check_and_add_limits j now lru = ground arith

-- Every call of the sequence comes at most `ttl` after `t`.
abbrev pub AllWithin : ℕ → List (Key × ℕ) → Type 0
AllWithin limit [] = Unit
AllWithin limit ((_, now) ∷ calls) = (now ≤ limit) × AllWithin limit calls

Holds-run_checks :
    (key : Key) (t n : ℕ) (calls : List (Key × ℕ)) (lru : NonceLru)
    → AllWithin (t + lru.ttl) calls
    → n + length calls ≤ lru.capacity
    → Holds key t n lru.items
    → Holds key t (n + length calls) (run_checks calls lru).items
      × ((run_checks calls lru).ttl ≡ lru.ttl)
      × ((run_checks calls lru).capacity ≡ lru.capacity)
unfolding run_checks
Holds-run_checks key t n [] lru within room h = (rw add-zero h, refl, refl)
Holds-run_checks key t n ((j, now) ∷ calls) lru within room h =
    let lru' = (check_and_add j now lru).1 in
    let (ttl', capacity') = check_and_add_limits j now lru in
    let (held, ttl'', capacity'') =
      Holds-run_checks key t (suc n) calls lru'
        (subst (λ l. AllWithin (t + l) calls) (sym ttl') within.1) (omega (arith, capacity'))
        (Holds-check key t n now j lru within.0 (omega arith) h) in
    let e : suc n + length calls ≡ n + suc (length calls) = omega arith in
    (rw e at held, ttl'' ∙ ttl', capacity'' ∙ capacity')

has_key-evict_expired :
    (key : Key) (ttl now : ℕ) (items : Dict Key ℕ)
    → has_key key items ≡ false
    → has_key key (evict_expired ttl now items) ≡ false
unfolding has_key evict_expired
has_key-evict_expired key ttl now [] h = h
has_key-evict_expired key ttl now ((k, ts) ∷ items) h =
    ground (arith, has_key-evict_expired key ttl now items)

has_key-evict_excess :
    (key : Key) (capacity : ℕ) (items : Dict Key ℕ)
    → has_key key items ≡ false
    → has_key key (evict_excess capacity items) ≡ false
unfolding has_key evict_excess
has_key-evict_excess key capacity [] h = h
has_key-evict_excess key capacity ((k, ts) ∷ items) h =
    ground (arith, has_key-evict_excess key capacity items)

has_key-evict :
    (key : Key) (now : ℕ) (lru : NonceLru)
    → has_key key lru.items ≡ false
    → has_key key (evict now lru).items ≡ false
unfolding evict
has_key-evict key now lru new =
    has_key-evict_excess key lru.capacity _ (has_key-evict_expired key lru.ttl now lru.items new)

-- A nonce that was accepted at time `t` is rejected at every later time up to `t + ttl`, whatever
-- calls came between, if these came in that time too and were fewer than the capacity. A nonce that
-- the cache does not hold is accepted, so nothing else is rejected.
pub check_and_add_replay :
    (key : Key) (t now : ℕ) (calls : List (Key × ℕ)) (lru : NonceLru)
    → AllWithin (t + lru.ttl) calls
    → length calls < lru.capacity
    → now ≤ t + lru.ttl
    → ((check_and_add key t lru).0 ≡ true
        → (check_and_add key now (run_checks calls (check_and_add key t lru).1)).0 ≡ false)
      × (has_key key lru.items ≡ false → (check_and_add key t lru).0 ≡ true)
check_and_add_replay key t now calls lru within few young = (rejected, accepted)
  where
    accepted : has_key key lru.items ≡ false → (check_and_add key t lru).0 ≡ true
    accepted new = unfold check_and_add in rw (has_key-evict key t lru new)

    recorded : (check_and_add key t lru).0 ≡ true → Holds key t 0 (check_and_add key t lru).1.items
    recorded ok = elim (Bool-cases (has_key key (evict t lru).items)) [
      | inl seen ↦ absurd (unfold check_and_add in cc (seen))
      | inr new ↦
          unfold check_and_add in
          rw new (
            rw (insert_new key t (evict t lru).items new)
              (Holds-record key t (evict t lru).items new))
    ]

    lru' : NonceLru
    lru' = (check_and_add key t lru).1

    rejected :
        (check_and_add key t lru).0 ≡ true
        → (check_and_add key now (run_checks calls lru')).0 ≡ false
    rejected ok =
        let (ttl', capacity') = check_and_add_limits key t lru in
        let (held, ttl'', capacity'') =
          Holds-run_checks key t 0 calls lru'
            (subst (λ l. AllWithin (t + l) calls) (sym ttl') within) (omega (arith, capacity'))
            (recorded ok) in
        let seen = Holds→has_key key t (0 + length calls) _ (
          Holds-evict key t (0 + length calls) now (run_checks calls lru')
            (omega (arith, ttl', ttl'')) (omega (arith, capacity', capacity'')) held) in
        unfold check_and_add in rw seen
