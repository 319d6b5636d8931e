-- ===== src/Base/Dict.antt =====
-- Python's dict: an association list in insertion order. Proofs elsewhere go by the laws.
use offwork.Base.Tests.{if◌then◌else◌}
use offwork.Base.Equality.{Eq, ◌==◌, contains}
use mathlib.Core.Path.{◌≡◌, refl}
use mathlib.Core.Bool.{Bool, true, false, ◌||◌}
use mathlib.Core.Option.{Option, none, some}
use mathlib.Core.List.{List, [], ◌∷◌, ◌++◌}
use native.Mathlib.Omega.{arith}

abbrev pub Dict {ℓ κ} : Type ℓ → Type κ → Type (ℓ ⊔ κ)
Dict K V = List (K × V)

module _ {ℓ κ} {K : Type ℓ} {V : Type κ} where
  -- `list(d)`
  unfoldable pub keys : Dict K V → List K
  keys [] = []
  keys ((k, _) ∷ d) = k ∷ keys d

  -- `d.values()`
  unfoldable pub values : Dict K V → List V
  values [] = []
  values ((_, v) ∷ d) = v ∷ values d

module _ {ℓ κ} {K : Type ℓ} {V : Type κ} ⦃e : Eq K⦄ where
  -- `d.get(k)`
  unfoldable pub lookup : K → Dict K V → Option V
  lookup k [] = none
  lookup k ((j, v) ∷ d) = if k == j then some v else lookup k d

  -- `d[k] = v`: a key that is there keeps its place.
  unfoldable pub insert : K → V → Dict K V → Dict K V
  insert k v [] = (k, v) ∷ []
  insert k v ((j, w) ∷ d) = if k == j then (k, v) ∷ d else (j, w) ∷ insert k v d

  -- `d.pop(k, None)`; a dict has at most one entry of a key.
  unfoldable pub erase : K → Dict K V → Dict K V
  erase k [] = []
  erase k ((j, w) ∷ d) = let rest = erase k d in if k == j then rest else (j, w) ∷ rest

  -- `k in d`
  unfoldable pub has_key : K → Dict K V → Bool
  has_key k [] = false
  has_key k ((j, _) ∷ d) = k == j || has_key k d

  pub lookup-nil : (k : K) → lookup k [] ≡ none
  unfolding lookup
  lookup-nil k = refl

  pub lookup-cons :
      (j k : K) (v : V) (d : Dict K V)
      → lookup j ((k, v) ∷ d) ≡ (if j == k then some v else lookup j d)
  unfolding lookup
  lookup-cons j k v d = refl

  pub lookup-insert :
      (j k : K) (v : V) (d : Dict K V)
      → lookup j (insert k v d) ≡ (if j == k then some v else lookup j d)
  unfolding insert lookup
  lookup-insert j k v [] = refl
  lookup-insert j k v (_ ∷ d) = ground (arith, lookup-insert j k v d)

  pub lookup-erase :
      (j k : K) (d : Dict K V) → lookup j (erase k d) ≡ (if j == k then none else lookup j d)
  unfolding erase lookup
  lookup-erase j k [] = ground arith
  lookup-erase j k (_ ∷ d) = ground (arith, lookup-erase j k d)

  pub has_key-none : (k : K) (d : Dict K V) → has_key k d ≡ false → lookup k d ≡ none
  unfolding has_key lookup
  has_key-none k [] h = refl
  has_key-none k (_ ∷ d) h = ground (arith, has_key-none k d)

  pub has_key-some : (k : K) (d : Dict K V) → has_key k d ≡ true → (v : V) × (lookup k d ≡ some v)
  unfolding has_key lookup
  has_key-some k [] h = absurd (cc)
  has_key-some k ((j, v) ∷ d) h = elim (e.dec k j) [
    | yes p ↦ (v, ground arith)
    | no n ↦ let (w, q) = has_key-some k d (ground arith) in (w, ground arith)
  ]

  pub has_key_of_lookup : (k : K) (d : Dict K V) (v : V) → lookup k d ≡ some v → has_key k d ≡ true
  unfolding has_key lookup
  has_key_of_lookup k [] v h = cc
  has_key_of_lookup k ((j, w) ∷ d) v h = ground (arith, has_key_of_lookup k d v)

  pub contains-keys : (k : K) (d : Dict K V) → contains (keys d) k ≡ has_key k d
  unfolding keys has_key
  contains-keys k [] = refl
  contains-keys k (_ ∷ d) = ground (arith, contains-keys k d)

  pub has_key-insert :
      (j k : K) (v : V) (d : Dict K V) → has_key j (insert k v d) ≡ (j == k || has_key j d)
  unfolding has_key insert
  has_key-insert j k v [] = refl
  has_key-insert j k v (_ ∷ d) = ground (arith, has_key-insert j k v d)

pub ruleset dict_laws = (lookup-nil, lookup-insert, lookup-erase)

-- A dict holds a key once.
module _ {ℓ κ} {K : Type ℓ} {V : Type κ} ⦃e : Eq K⦄ where
  abbrev pub NodupKeys : Dict K V → Type 0
  NodupKeys [] = Unit
  NodupKeys ((k, _) ∷ d) = (has_key k d ≡ false) × NodupKeys d

  pub insert-NodupKeys : (k : K) (v : V) (d : Dict K V) → NodupKeys d → NodupKeys (insert k v d)
  unfolding insert has_key
  insert-NodupKeys k v [] _ = (refl, tt)
  insert-NodupKeys k v ((j, _) ∷ d) (fresh, u) =
      ground (arith, insert-NodupKeys k v d u, has_key-insert j k v d)

  pub has_key-erase :
      (j k : K) (d : Dict K V) → has_key j (erase k d) ≡ (if j == k then false else has_key j d)
  unfolding erase has_key
  has_key-erase j k [] = ground arith
  has_key-erase j k (_ ∷ d) = ground (arith, has_key-erase j k d)

  pub erase-NodupKeys : (k : K) (d : Dict K V) → NodupKeys d → NodupKeys (erase k d)
  unfolding erase has_key
  erase-NodupKeys k [] _ = tt
  erase-NodupKeys k ((j, _) ∷ d) (fresh, u) =
      ground (arith, erase-NodupKeys k d u, has_key-erase j k d)

  pub has_key-append : (k : K) (c d : Dict K V) → has_key k (c ++ d) ≡ (has_key k c || has_key k d)
  unfolding has_key
  has_key-append k [] d = refl
  has_key-append k (_ ∷ c) d = ground (arith, has_key-append k c d)

  -- A new key goes to the end.
  pub insert_new :
      (k : K) (v : V) (d : Dict K V) → has_key k d ≡ false → insert k v d ≡ d ++ (k, v) ∷ []
  unfolding insert has_key
  insert_new k v [] h = refl
  insert_new k v ((j, w) ∷ d) h = ground (arith, insert_new k v d)
