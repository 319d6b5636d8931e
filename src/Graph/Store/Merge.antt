-- ===== src/Graph/Store/Merge.antt =====
-- `merge` of `Store` in offwork/graph/store.py.
use offwork.Base.{
  inl, inr, ℕ, suc, ◌+◌, String, ◌≡◌, refl, false, ◌||◌, Option, none, some, List, [], ◌∷◌, ◌++◌,
  arith, ◌==◌, contains, string_eq, contains-append, Bool-cases, if◌then◌else◌, length, ap, not,
  ◌&&◌, length-append, Option-cases,
}
use offwork.Base.Dict.{
  Dict, lookup, insert, has_key, lookup-insert, NodupKeys, has_key-none, has_key-some, insert_new,
}
use offwork.Graph.Models.{Blob}
use offwork.Graph.Store.{Store, get, get_deps, get_ref, or_empty}
use offwork.Graph.Store.Walk.{Reach, here, step}

pub record MergeResult : Type 0 where
  pub added_objects : ℕ
  pub added_refs : ℕ
  pub conflicts : Dict String (String × String)

-- `for h, blob in other._objects.items()`: the objects, and how many were new.
unfoldable pub merge_objects : Dict String Blob → Dict String Blob → ℕ → Dict String Blob × ℕ
merge_objects [] objects added = (objects, added)
merge_objects ((h, blob) ∷ rest) objects added =
    let old = merge_objects rest objects added in
    let new = merge_objects rest (insert h blob objects) (added + 1) in
    if has_key h objects then old else new

-- `list(dict.fromkeys(xs))`: the first occurrence of each item.
unfoldable pub fromkeys : List String → List String → List String
fromkeys seen [] = []
fromkeys seen (x ∷ xs) =
    let old = fromkeys seen xs in
    let new = x ∷ fromkeys (x ∷ seen) xs in if contains seen x then old else new

unfoldable pub join_deps : Option (List String) → List String → List String
unfolding fromkeys
join_deps none ds = ds
join_deps (some existing) ds = fromkeys [] (existing ++ ds)

-- `for h, deps in other._deps.items()`
unfoldable pub merge_deps :
    Dict String (List String) → Dict String (List String) → Dict String (List String)
unfolding join_deps
merge_deps [] deps = deps
merge_deps ((h, ds) ∷ rest) deps = merge_deps rest (insert h (join_deps (lookup h deps) ds) deps)

-- `for name, h in other._refs.items()`, over the references and the result so far.
unfoldable pub merge_ref :
    String
    → String
    → Option String
    → Dict String String × MergeResult
    → Dict String String × MergeResult
merge_ref name h none (refs, r) = (insert name h refs, record r { added_refs = r.added_refs + 1 })
merge_ref name h (some old) (refs, r) =
    (refs, if old == h then r else record r { conflicts = insert name (old, h) r.conflicts })

unfoldable pub merge_refs :
    Dict String String → Dict String String × MergeResult → Dict String String × MergeResult
unfolding merge_ref
merge_refs [] acc = acc
merge_refs ((name, h) ∷ rest) acc = merge_refs rest (merge_ref name h (lookup name acc.0) acc)

unfoldable pub merge : Store → Store → Store × MergeResult
unfolding merge_objects merge_deps merge_refs
merge s other =
    let (objects, added) = merge_objects other.objects s.objects 0 in
    let start : MergeResult = record { added_objects = added; added_refs = 0; conflicts = [] } in
    let (refs, result) = merge_refs other.refs (s.refs, start) in
    (record { objects = objects; deps = merge_deps other.deps s.deps; refs = refs }, result)

abbrev pub or_else {ℓ} : {A : Type ℓ} → Option A → Option A → Option A
or_else none b = b
or_else (some a) b = some a

objects-merge :
    (other objects : Dict String Blob) (n : ℕ) (k : String)
    → lookup k (merge_objects other objects n).0 ≡ or_else (lookup k objects) (lookup k other)
unfolding merge_objects lookup
objects-merge [] objects n k = ground arith
objects-merge ((h, blob) ∷ rest) objects n k = elim (Bool-cases (has_key h objects)) [
  | inl old ↦
      let (b, found) = has_key-some h objects old in
      rw old (ground (arith, objects-merge rest objects n k))
  | inr new ↦ rw new (
      ground (
        arith,
        objects-merge rest (insert h blob objects) (n + 1) k,
        lookup-insert k h blob objects,
        has_key-none h objects new,
      ))
]

length-insert_new :
    {V : Type 0} (k : String) (v : V) (d : Dict String V)
    → has_key k d ≡ false
    → length (insert k v d) ≡ suc (length d)
length-insert_new k v d new =
    omega (arith, ap length (insert_new k v d new), length-append d ((k, v) ∷ []))

length-merge_objects :
    (other objects : Dict String Blob) (n : ℕ)
    → length (merge_objects other objects n).0 + n
      ≡ length objects + (merge_objects other objects n).1
unfolding merge_objects
length-merge_objects [] objects n = refl
length-merge_objects ((h, blob) ∷ rest) objects n = elim (Bool-cases (has_key h objects)) [
  | inl old ↦ rw old (length-merge_objects rest objects n)
  | inr new ↦ rw new (
      omega (
        arith,
        length-merge_objects rest (insert h blob objects) (n + 1),
        length-insert_new h blob objects new,
      ))
]

contains-fromkeys :
    (seen xs : List String) (a : String)
    → contains (fromkeys seen xs) a ≡ (not (contains seen a) && contains xs a)
unfolding fromkeys
contains-fromkeys seen [] a = ground arith
contains-fromkeys seen (x ∷ xs) a =
    ground (arith, contains-fromkeys seen xs a, contains-fromkeys (x ∷ seen) xs a)

contains-join :
    (o : Option (List String)) (ds : List String) (a : String)
    → contains (join_deps o ds) a ≡ (contains (or_empty o) a || contains ds a)
unfolding join_deps
contains-join none ds a = refl
contains-join (some existing) ds a =
    ground (arith, contains-fromkeys [] (existing ++ ds) a, contains-append existing ds a)

deps-merge :
    (other deps : Dict String (List String)) (k a : String)
    → NodupKeys other
    → contains (or_empty (lookup k (merge_deps other deps))) a
      ≡ (contains (or_empty (lookup k deps)) a || contains (or_empty (lookup k other)) a)
unfolding merge_deps lookup
deps-merge [] deps k a u = ground arith
deps-merge ((h, ds) ∷ rest) deps k a u =
    let joined = join_deps (lookup h deps) ds in
    ground (
      arith,
      deps-merge rest (insert h joined deps) k a u.1,
      lookup-insert k h joined deps,
      has_key-none h rest u.0,
      contains-join (lookup h deps) ds a,
    )

-- What the loop over the references does to the conflict of one name.
abbrev pub conflict_of :
    Option String → Option String → Option (String × String) → Option (String × String)
conflict_of (some old) (some h) c = if old == h then c else some (old, h)
conflict_of _ _ c = c

refs-merge :
    (other : Dict String String) (acc : Dict String String × MergeResult) (k : String)
    → lookup k (merge_refs other acc).0 ≡ or_else (lookup k acc.0) (lookup k other)
unfolding merge_refs merge_ref lookup
refs-merge [] acc k = ground arith
refs-merge ((name, h) ∷ rest) acc k = ground (
  arith,
  refs-merge rest (merge_ref name h (lookup name acc.0) acc) k,
  lookup-insert k name h acc.0,
)

conflicts-merge :
    (other : Dict String String) (acc : Dict String String × MergeResult) (k : String)
    → NodupKeys other
    → lookup k (merge_refs other acc).1.conflicts
      ≡ conflict_of (lookup k acc.0) (lookup k other) (lookup k acc.1.conflicts)
unfolding merge_refs merge_ref lookup
conflicts-merge [] acc k u = ground arith
conflicts-merge ((name, h) ∷ rest) (refs, r) k u = elim (Option-cases (lookup name refs)) [
  | inl absent ↦
      rw (absent, merge_refs)
        (ground (
          arith,
          conflicts-merge rest (merge_ref name h none (refs, r)) k u.1,
          lookup-insert k name h refs,
          has_key-none name rest u.0,
        ))
  | inr (old, present) ↦
      rw (present, merge_refs)
        (ground (
          arith,
          conflicts-merge rest (merge_ref name h (some old) (refs, r)) k u.1,
          lookup-insert k name (old, h) r.conflicts,
          has_key-none name rest u.0,
        ))
]

added_objects-merge :
    (other : Dict String String) (acc : Dict String String × MergeResult)
    → (merge_refs other acc).1.added_objects ≡ acc.1.added_objects
unfolding merge_refs merge_ref
added_objects-merge [] acc = refl
added_objects-merge ((name, h) ∷ rest) acc =
    ground (arith, added_objects-merge rest (merge_ref name h (lookup name acc.0) acc))

-- After a merge an object, and a reference, is the one that the store had, or else the other's;
-- a hash depends on what it depended on in either store; a conflict is recorded for exactly the
-- names that the two stores map to different hashes, with both hashes; and `added_objects` is the
-- growth of the store.
pub merge_joins :
    (s other : Store) (k : String)
    → NodupKeys other.deps
    → NodupKeys other.refs
    → (get (merge s other).0 k ≡ or_else (get s k) (get other k))
      × (get_ref (merge s other).0 k ≡ or_else (get_ref s k) (get_ref other k))
      × ((d : String)
          → contains (get_deps (merge s other).0 k) d
            ≡ (contains (get_deps s k) d || contains (get_deps other k) d))
      × (lookup k (merge s other).1.conflicts ≡ conflict_of (get_ref s k) (get_ref other k) none)
      × (length (merge s other).0.objects ≡ length s.objects + (merge s other).1.added_objects)
unfolding merge get get_ref get_deps lookup
merge_joins s other k unique_deps unique_refs = (
  objects-merge other.objects s.objects 0 k,
  refs-merge other.refs _ k,
  λ d. deps-merge other.deps s.deps k d unique_deps,
  conflicts-merge other.refs _ k unique_refs,
  omega (
    arith,
    length-merge_objects other.objects s.objects 0,
    added_objects-merge other.refs (s.refs, _),
  ),
)

-- A merge loses no dependency: what a hash reached in either store, it reaches afterwards.
pub merge-Reach :
    (s other : Store) (root h : String)
    → NodupKeys other.deps
    → (Reach s root h → Reach (merge s other).0 root h)
      × (Reach other root h → Reach (merge s other).0 root h)
merge-Reach s other root h unique = (mine h, theirs h)
  where
    edges :
        (u v : String)
        → contains (get_deps (merge s other).0 u) v
          ≡ (contains (get_deps s u) v || contains (get_deps other u) v)
    edges u v = unfold merge get_deps in deps-merge other.deps s.deps u v unique

    mine : (v : String) → Reach s root v → Reach (merge s other).0 root v
    mine v here = here
    mine v (step {u} p edge) = step (mine u p) (ground (arith, edges u v))

    theirs : (v : String) → Reach other root v → Reach (merge s other).0 root v
    theirs v here = here
    theirs v (step {u} p edge) = step (theirs u p) (ground (arith, edges u v))
