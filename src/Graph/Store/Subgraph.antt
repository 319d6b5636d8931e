-- ===== src/Graph/Store/Subgraph.antt =====
-- `subgraph` of `Store` in offwork/graph/store.py.
use offwork.Base.{
  String, ◌≡◌, refl, ◌∙◌, inl, inr, Bool, true, ◌&&◌, Option, none, some, List, [], ◌∷◌, arith,
  ◌==◌, contains, string_eq, Bool-cases, if◌then◌else◌, select, ap,
}
use offwork.Base.Dict.{Dict, lookup, insert, lookup-insert, lookup-erase}
use offwork.Graph.Models.{Blob}
use offwork.Graph.Store.{Store, empty_store, put_blob, get, set_deps, get_deps, or_empty, set_ref}
use offwork.Graph.Store.Merge.{or_else}
use offwork.Graph.Store.Walk.{step}
use offwork.Graph.Store.Gc.{
  reachable_from, From, From→reachable_from, reachable_from→From, contains-select,
}

-- `{h: qn for qn, h in self._refs.items()}`
unfoldable pub flip_refs : Dict String String → Dict String String → Dict String String
flip_refs [] acc = acc
flip_refs ((qn, h) ∷ refs) acc = flip_refs refs (insert h qn acc)

abbrev pub copy_blob : String → Option Blob → Store → Store
copy_blob h none out = out
copy_blob h (some blob) out = put_blob h blob out

-- `if deps: store.set_deps(h, [d for d in deps if d in reachable])`
abbrev pub copy_deps : (String → Bool) → String → Option (List String) → Store → Store
copy_deps keep h none out = out
copy_deps keep h (some []) out = out
copy_deps keep h (some (d ∷ ds)) out = set_deps h (select keep (d ∷ ds)) out

abbrev pub copy_ref : String → Option String → Store → Store
copy_ref h none out = out
copy_ref h (some qn) out = set_ref qn h out

unfoldable pub copy_hash : Store → (String → Bool) → Dict String String → String → Store → Store
copy_hash s keep names h out =
    copy_ref h (lookup h names) (copy_deps keep h (lookup h s.deps) (copy_blob h (get s h) out))

unfoldable pub copy_hashes :
    Store → (String → Bool) → Dict String String → List String → Store → Store
copy_hashes s keep names [] out = out
copy_hashes s keep names (h ∷ hs) out = copy_hashes s keep names hs (copy_hash s keep names h out)

-- The set `reachable` is the list of what the roots reach; its order is Python's choice.
unfoldable pub subgraph : Store → List String → Store
unfolding flip_refs copy_hashes
subgraph s roots =
    let reachable = reachable_from s roots in
    copy_hashes s (contains reachable) (flip_refs s.refs []) reachable empty_store

module _ (s : Store) (keep : String → Bool) (names : Dict String String) where
  objects-copy_ref :
      (h : String) (o : Option String) (out : Store) → (copy_ref h o out).objects ≡ out.objects
  unfolding set_ref
  objects-copy_ref h none out = refl
  objects-copy_ref h (some qn) out = refl

  objects-set_deps :
      (h : String) (ds : List String) (out : Store) → (set_deps h ds out).objects ≡ out.objects
  unfolding set_deps
  objects-set_deps h [] out = refl
  objects-set_deps h (d ∷ ds) out = refl

  objects-copy_deps :
      (h : String) (o : Option (List String)) (out : Store)
      → (copy_deps keep h o out).objects ≡ out.objects
  objects-copy_deps h none out = refl
  objects-copy_deps h (some []) out = refl
  objects-copy_deps h (some (d ∷ ds)) out = objects-set_deps h (select keep (d ∷ ds)) out

  deps-copy_blob :
      (h : String) (o : Option Blob) (out : Store) → (copy_blob h o out).deps ≡ out.deps
  unfolding put_blob
  deps-copy_blob h none out = refl
  deps-copy_blob h (some b) out = refl

  deps-copy_ref :
      (h : String) (o : Option String) (out : Store) → (copy_ref h o out).deps ≡ out.deps
  unfolding set_ref
  deps-copy_ref h none out = refl
  deps-copy_ref h (some qn) out = refl

  -- One round of the loop, seen from the hash `k`.
  get-copy_hash :
      (h k : String) (out : Store)
      → get (copy_hash s keep names h out) k
        ≡ (if k == h then or_else (get s h) (get out k) else get out k)
  unfolding copy_hash get
  get-copy_hash h k out =
      ap (lookup k) (
        objects-copy_ref h (lookup h names)
          (copy_deps keep h (lookup h s.deps) (copy_blob h (lookup h s.objects) out))
        ∙ objects-copy_deps h (lookup h s.deps) (copy_blob h (lookup h s.objects) out))
      ∙ blob (lookup h s.objects)
    where
      blob :
          (o : Option Blob)
          → lookup k (copy_blob h o out).objects
            ≡ (if k == h then or_else o (lookup k out.objects) else lookup k out.objects)
      blob none = ground arith
      blob (some b) = unfold put_blob in ground (arith, lookup-insert k h b out.objects)

  or_else_same : (o p : Option Blob) → p ≡ o → or_else o p ≡ o
  or_else_same none p h = h
  or_else_same (some b) p h = refl

  or_else-none : (o : Option Blob) → or_else o none ≡ o
  or_else-none none = refl
  or_else-none (some b) = refl

  -- What was copied stays.
  get_stays :
      (hs : List String) (k : String) (out : Store)
      → get out k ≡ get s k
      → get (copy_hashes s keep names hs out) k ≡ get s k
  unfolding copy_hashes
  get_stays [] k out h = h
  get_stays (x ∷ hs) k out h =
      get_stays hs k (copy_hash s keep names x out)
        (ground (arith, get-copy_hash x k out, h, or_else_same (get s k) (get out k) h))

  get-copy_hashes :
      (hs : List String) (k : String) (out : Store)
      → get out k ≡ none
      → get (copy_hashes s keep names hs out) k ≡ (if contains hs k then get s k else none)
  unfolding copy_hashes
  get-copy_hashes [] k out h = h
  get-copy_hashes (x ∷ hs) k out h = elim (string_eq.dec k x) [
    | yes p ↦
        let copied : get (copy_hash s keep names x out) k ≡ get s k =
          ground (arith, get-copy_hash x k out, h, or_else-none (get s k)) in
        ground (arith, get_stays hs k (copy_hash s keep names x out) copied)
    | no n ↦
        let kept : get (copy_hash s keep names x out) k ≡ none =
          ground (arith, get-copy_hash x k out, h) in
        ground (arith, get-copy_hashes hs k (copy_hash s keep names x out) kept)
  ]

  -- The dependencies after one round, from the source's and those that were there.
  pick : Option (List String) → List String → List String
  pick none ds = ds
  pick (some []) ds = ds
  pick (some (d ∷ ds)) _ = select keep (d ∷ ds)

  get_deps-set_deps :
      (h k : String) (ds : List String) (out : Store)
      → get_deps (set_deps h ds out) k ≡ (if k == h then ds else get_deps out k)
  unfolding get_deps set_deps
  get_deps-set_deps h k [] out = ground (arith, lookup-erase k h out.deps)
  get_deps-set_deps h k (d ∷ ds) out = ground (arith, lookup-insert k h (d ∷ ds) out.deps)

  get_deps-copy_deps :
      (h k : String) (o : Option (List String)) (out : Store)
      → get_deps (copy_deps keep h o out) k
        ≡ (if k == h then pick o (get_deps out k) else get_deps out k)
  unfolding pick
  get_deps-copy_deps h k none out = ground arith
  get_deps-copy_deps h k (some []) out = ground arith
  get_deps-copy_deps h k (some (d ∷ ds)) out = get_deps-set_deps h k (select keep (d ∷ ds)) out

  get_deps-copy_hash :
      (h k : String) (out : Store)
      → get_deps (copy_hash s keep names h out) k
        ≡ (if k == h then pick (lookup h s.deps) (get_deps out k) else get_deps out k)
  unfolding copy_hash get_deps
  get_deps-copy_hash h k out =
      let blobs = copy_blob h (get s h) out in
      ap (λ d. or_empty (lookup k d))
        (deps-copy_ref h (lookup h names) (copy_deps keep h (lookup h s.deps) blobs))
      ∙ get_deps-copy_deps h k (lookup h s.deps) blobs
      ∙ ap
          (λ d.
            if k == h
            then pick (lookup h s.deps) (or_empty (lookup k d))
            else or_empty (lookup k d))
          (deps-copy_blob h (get s h) out)

  pick_same :
      (o : Option (List String)) (ds : List String)
      → ds ≡ select keep (or_empty o)
      → pick o ds ≡ select keep (or_empty o)
  unfolding pick
  pick_same none ds h = h
  pick_same (some []) ds h = h
  pick_same (some (d ∷ _)) ds h = refl

  pick_new : (o : Option (List String)) → pick o [] ≡ select keep (or_empty o)
  unfolding pick select
  pick_new none = refl
  pick_new (some []) = refl
  pick_new (some (d ∷ _)) = refl

  deps_stay :
      (hs : List String) (k : String) (out : Store)
      → get_deps out k ≡ select keep (get_deps s k)
      → get_deps (copy_hashes s keep names hs out) k ≡ select keep (get_deps s k)
  unfolding copy_hashes
  deps_stay [] k out h = h
  deps_stay (x ∷ hs) k out h =
      let same : pick (lookup k s.deps) (get_deps out k) ≡ select keep (get_deps s k) =
        unfold get_deps in pick_same (lookup k s.deps) (get_deps out k) h in
      deps_stay hs k (copy_hash s keep names x out)
        (ground (arith, get_deps-copy_hash x k out, h, same))

  get_deps-copy_hashes :
      (hs : List String) (k : String) (out : Store)
      → get_deps out k ≡ []
      → contains hs k ≡ true
      → get_deps (copy_hashes s keep names hs out) k ≡ select keep (get_deps s k)
  unfolding copy_hashes
  get_deps-copy_hashes [] k out h m = absurd (cc)
  get_deps-copy_hashes (x ∷ hs) k out h m = elim (string_eq.dec k x) [
    | yes p ↦
        let fresh : pick (lookup k s.deps) [] ≡ select keep (get_deps s k) =
          unfold get_deps in pick_new (lookup k s.deps) in
        deps_stay hs k (copy_hash s keep names x out)
          (ground (arith, get_deps-copy_hash x k out, h, fresh))
    | no n ↦
        get_deps-copy_hashes hs k (copy_hash s keep names x out)
          (ground (arith, get_deps-copy_hash x k out, h)) (ground arith)
  ]

get-empty : (k : String) → get empty_store k ≡ none
unfolding get lookup
get-empty k = refl

get_deps-empty : (k : String) → get_deps empty_store k ≡ []
unfolding get_deps lookup
get_deps-empty k = refl

-- What a reached hash depends on is reached.
dependencies_reached :
    (s : Store) (roots : List String) (k d : String)
    → From s roots k
    → (contains (reachable_from s roots) d && contains (get_deps s k) d) ≡ contains (get_deps s k) d
dependencies_reached s roots k d (h, member, path) = elim (Bool-cases (contains (get_deps s k) d)) [
  | inl edge ↦ rw (edge, From→reachable_from s roots h d member (step path edge)) refl
  | inr none_such ↦ ground (arith, none_such)
]

-- The subgraph has every object that the roots reach, none other, and of a hash that they reach all
-- the dependencies that it has in the store.
pub subgraph_is_closure :
    (s : Store) (roots : List String) (k : String)
    → (From s roots k → get (subgraph s roots) k ≡ get s k)
      × (¬ (From s roots k) → get (subgraph s roots) k ≡ none)
      × (From s roots k
          → (d : String) → contains (get_deps (subgraph s roots) k) d ≡ contains (get_deps s k) d)
unfolding subgraph
subgraph_is_closure s roots k = (
  λ (h, member, path). rw (objects, From→reachable_from s roots h k member path) refl,
  λ apart. elim (Bool-cases (contains (reachable_from s roots) k)) [
    | inl reached ↦ absurd (apart (reachable_from→From s roots k reached))
    | inr other ↦ rw (objects, other) refl
  ],
  λ (h, member, path) d.
      ap (λ ds. contains ds d)
        (get_deps-copy_hashes s keep names reachable k empty_store (get_deps-empty k)
          (From→reachable_from s roots h k member path))
      ∙ contains-select keep (get_deps s k) d
      ∙ dependencies_reached s roots k d (h, member, path),
)
  where
    reachable : List String
    reachable = reachable_from s roots

    keep : String → Bool
    keep = contains reachable

    names : Dict String String
    names = flip_refs s.refs []

    objects :
        get (copy_hashes s keep names reachable empty_store) k
        ≡ (if contains reachable k then get s k else none)
    objects = get-copy_hashes s keep names reachable k empty_store (get-empty k)
