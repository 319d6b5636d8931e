-- ===== src/Graph/Store/Gc.antt =====
-- `gc` and `missing` of `Store` in offwork/graph/store.py.
use offwork.Base.{
  String, ◌≡◌, refl, ◌↔◌, inl, inr, Bool, true, false, not, ◌||◌, ◌&&◌, none, List, [], ◌∷◌, ◌++◌,
  arith, contains, string_eq, contains-append, Bool-cases, if◌then◌else◌, select, ==_refl, subst,
  sym,
}
use offwork.Base.Dict.{keys, values, lookup, erase, has_key, lookup-erase, contains-keys}
use offwork.Base.Dict.{has_key-none, has_key-some}
use offwork.Graph.Store.{Store, get, get_deps, walk}
use offwork.Graph.Store.Walk.{Reach, here, step, walk-iff-Reach}

-- `reachable.update(self.walk(h))` for each root.
unfoldable pub reachable_from : Store → List String → List String
reachable_from s [] = []
reachable_from s (h ∷ hs) = walk s h ++ reachable_from s hs

-- `hashes - self._objects.keys()`
unfoldable pub missing : Store → List String → List String
missing s = select (λ h. not (has_key h s.objects))

-- The keys of `objects` that are not reachable.
unfoldable pub garbage_of : Store → List String
garbage_of s = select (λ h. not (contains (reachable_from s (values s.refs)) h)) (keys s.objects)

-- `for h in garbage: del self._objects[h]; self._deps.pop(h, None)`
unfoldable pub drop_all : List String → Store → Store
drop_all [] s = s
drop_all (h ∷ hs) s = drop_all hs (record s { objects = erase h s.objects; deps = erase h s.deps })

unfoldable pub gc : Store → List String × Store
unfolding garbage_of drop_all reachable_from
gc s = let garbage = garbage_of s in (garbage, drop_all garbage s)

-- Reached from one of the references.
abbrev pub From : Store → List String → String → Type 0
From s roots v = (h : String) × (contains roots h ≡ true) × Reach s h v

abbrev pub Rooted : Store → String → Type 0
Rooted s v = (h : String) × (contains (values s.refs) h ≡ true) × Reach s h v

pub contains-select :
    (keep : String → Bool) (xs : List String) (a : String)
    → contains (select keep xs) a ≡ (keep a && contains xs a)
unfolding select
contains-select keep [] a = ground arith
contains-select keep (x ∷ xs) a = ground (arith, contains-select keep xs a)

-- `missing` returns the given hashes that have no object.
pub contains-missing :
    (s : Store) (hashes : List String) (h : String)
    → contains (missing s hashes) h ≡ (not (has_key h s.objects) && contains hashes h)
unfolding missing
contains-missing s hashes h = contains-select (λ k. not (has_key k s.objects)) hashes h

split_first :
    (s : Store) (r : String) (roots : List String) (v : String)
    → contains (reachable_from s (r ∷ roots)) v
      ≡ (contains (walk s r) v || contains (reachable_from s roots) v)
unfolding reachable_from
split_first s r roots v = contains-append (walk s r) (reachable_from s roots) v

pub reachable_from→From :
    (s : Store) (roots : List String) (v : String)
    → contains (reachable_from s roots) v ≡ true
    → From s roots v
unfolding reachable_from
reachable_from→From s [] v c = absurd (cc)
reachable_from→From s (r ∷ roots) v c = elim (Bool-cases (contains (walk s r) v)) [
  | inl first ↦ (r, ground (arith, ==_refl r), (walk-iff-Reach s r v).0 first)
  | inr later ↦
      let (h, member, path) =
        reachable_from→From s roots v (ground (arith, split_first s r roots v)) in
      (h, ground arith, path)
]

pub From→reachable_from :
    (s : Store) (roots : List String) (h v : String)
    → contains roots h ≡ true
    → Reach s h v
    → contains (reachable_from s roots) v ≡ true
From→reachable_from s [] h v member path = absurd (cc)
From→reachable_from s (r ∷ roots) h v member path = elim (string_eq.dec h r) [
  | yes same ↦
      let first = (walk-iff-Reach s r v).1 (subst (λ k. Reach s k v) same path) in
      ground (arith, split_first s r roots v)
  | no other ↦
      let later = From→reachable_from s roots h v (ground arith) path in
      ground (arith, split_first s r roots v)
]

objects-drop_all :
    (hs : List String) (s : Store) (k : String)
    → lookup k (drop_all hs s).objects ≡ (if contains hs k then none else lookup k s.objects)
unfolding drop_all
objects-drop_all [] s k = refl
objects-drop_all (h ∷ hs) s k = ground (
  arith,
  lookup-erase k h s.objects,
  objects-drop_all hs (record s { objects = erase h s.objects; deps = erase h s.deps }) k,
)

deps-drop_all :
    (hs : List String) (s : Store) (k : String)
    → lookup k (drop_all hs s).deps ≡ (if contains hs k then none else lookup k s.deps)
unfolding drop_all
deps-drop_all [] s k = refl
deps-drop_all (h ∷ hs) s k = ground (
  arith,
  lookup-erase k h s.deps,
  deps-drop_all hs (record s { objects = erase h s.objects; deps = erase h s.deps }) k,
)

refs-drop_all : (hs : List String) (s : Store) → (drop_all hs s).refs ≡ s.refs
unfolding drop_all
refs-drop_all [] s = refl
refs-drop_all (h ∷ hs) s = refs-drop_all hs _

module _ (s : Store) where
  contains-garbage :
      (h : String)
      → contains (garbage_of s) h
        ≡ (not (contains (reachable_from s (values s.refs)) h) && has_key h s.objects)
  unfolding garbage_of
  contains-garbage h = ground (
    arith,
    contains-keys h s.objects,
    contains-select (λ k. not (contains (reachable_from s (values s.refs)) k)) (keys s.objects) h,
  )

  Rooted→reachable :
      (h : String) → Rooted s h → contains (reachable_from s (values s.refs)) h ≡ true
  Rooted→reachable h (r, member, path) = From→reachable_from s (values s.refs) r h member path

  get_deps_of_Rooted : (h : String) → Rooted s h → get_deps (gc s).1 h ≡ get_deps s h
  unfolding gc get_deps
  get_deps_of_Rooted h r =
      ground (arith, deps-drop_all (garbage_of s) s h, contains-garbage h, Rooted→reachable h r)

  get-gc :
      (h : String)
      → get (gc s).1 h ≡ (if contains (reachable_from s (values s.refs)) h then get s h else none)
  unfolding gc get
  get-gc h =
      ground
        (arith, objects-drop_all (garbage_of s) s h, contains-garbage h, has_key-none h s.objects)

  refs-gc : (gc s).1.refs ≡ s.refs
  unfolding gc
  refs-gc = refs-drop_all (garbage_of s) s

  Reach→gc : (h v : String) → contains (values s.refs) h ≡ true → Reach s h v → Reach (gc s).1 h v
  Reach→gc h v root here = here
  Reach→gc h v root (step {u} p edge) =
      step (Reach→gc h u root p)
        (subst (λ ds. contains ds v ≡ true) (sym (get_deps_of_Rooted u (h, root, p))) edge)

  gc→Reach : (h v : String) → contains (values s.refs) h ≡ true → Reach (gc s).1 h v → Reach s h v
  gc→Reach h v root here = here
  gc→Reach h v root (step {u} p edge) =
      let before = gc→Reach h u root p in
      step before (subst (λ ds. contains ds v ≡ true) (get_deps_of_Rooted u (h, root, before)) edge)

-- Garbage collection keeps the references, keeps every object that a reference reaches, removes
-- every other object, and changes no path from a reference.
pub gc_keeps_reachable :
    (s : Store) (h : String)
    → ((gc s).1.refs ≡ s.refs)
      × (Rooted s h → get (gc s).1 h ≡ get s h)
      × (¬ (Rooted s h) → get (gc s).1 h ≡ none)
      × ((root : String)
          → contains (values s.refs) root ≡ true
          → Reach (gc s).1 root h ↔ Reach s root h)
gc_keeps_reachable s h = (
  refs-gc s,
  λ r. ground (arith, get-gc s h, Rooted→reachable s h r),
  λ n. elim (Bool-cases (contains (reachable_from s (values s.refs)) h)) [
    | inl c ↦ absurd (n (reachable_from→From s (values s.refs) h c))
    | inr c ↦ ground (arith, get-gc s h)
  ],
  λ root member. (gc→Reach s root h member, Reach→gc s root h member),
)

select-nil :
    (keep : String → Bool) (xs : List String)
    → ((x : String) → contains xs x ≡ true → keep x ≡ false)
    → select keep xs ≡ []
unfolding select
select-nil keep [] drops = refl
select-nil keep (x ∷ xs) drops =
    ground (
      arith,
      drops x (ground (arith, ==_refl x)),
      select-nil keep xs (λ y m. drops y (ground arith)),
    )

kept_is_Rooted : (s : Store) (h : String) → has_key h (gc s).1.objects ≡ true → Rooted s h
kept_is_Rooted s h member = elim (Bool-cases (contains (reachable_from s (values s.refs)) h)) [
  | inl c ↦ reachable_from→From s (values s.refs) h c
  | inr c ↦
      let (blob, found) = has_key-some h (gc s).1.objects member in
      absurd (unfold get in ground (arith, get-gc s h))
]

-- A second collection finds no garbage.
pub gc_idem : (s : Store) → (gc (gc s).1).0 ≡ []
gc_idem s =
    unfold garbage_of gc in
    select-nil (λ h. not (contains (reachable_from s' (values s'.refs)) h)) (keys s'.objects)
      (λ h member. ground (arith, reached h member))
  where
    s' : Store
    s' = (gc s).1

    reached :
        (h : String)
        → contains (keys s'.objects) h ≡ true
        → contains (reachable_from s' (values s'.refs)) h ≡ true
    reached h member =
        let (root, is_root, path) =
          kept_is_Rooted s h (ground (arith, contains-keys h s'.objects)) in
        Rooted→reachable s' h (
          root,
          subst (λ d. contains (values d) root ≡ true) (sym (refs-gc s)) is_root,
          Reach→gc s root h is_root path,
        )
