-- ===== src/Graph/Store/Export/RoundTrip.antt =====
-- Export and import of a `Store`, in offwork/graph/store.py.
use offwork.Base.{
  String, ◌≡◌, refl, sym, ap, ◌∙◌, inl, inr, true, false, Option, none, some, List, [], ◌∷◌, arith,
  ◌==◌, ==_refl, string_eq, Bool-cases, if◌then◌else◌,
}
use offwork.Base.Dict.{Dict, lookup, insert, has_key, NodupKeys, lookup-insert, lookup-erase}
use offwork.Graph.Models.{Blob}
use offwork.Graph.Store.{
  Store, empty_store, put_blob, get, set_deps, get_deps, or_empty, set_ref, get_ref,
}
use offwork.Graph.Store.Merge.{or_else}
use offwork.Graph.Store.Subgraph.{flip_refs}
use offwork.Graph.Store.Export.{
  translate, translate_blob, export_objects, store_to_dict, put_all, set_all_deps, set_all_refs,
  store_from_dict,
}

-- No other name than `x` has the hash.
abbrev pub OnlyOf : String → String → Dict String String → Type 0
OnlyOf x h [] = Unit
OnlyOf x h ((name, k) ∷ rest) = (k ≡ h → name ≡ x) × OnlyOf x h rest

-- The names that closures refer to have hashes, each a hash of its own.
abbrev pub Linked : Dict String String → Dict String String → Type 0
Linked refs [] = Unit
Linked refs ((var, x) ∷ rest) =
    ((h : String) × (lookup x refs ≡ some h) × OnlyOf x h refs) × Linked refs rest

abbrev pub AllLinked : Dict String String → Dict String Blob → Type 0
AllLinked refs [] = Unit
AllLinked refs ((h, blob) ∷ rest) = Linked refs blob.closure_func_refs × AllLinked refs rest

eq_of : (j k : String) → (j == k) ≡ true → j ≡ k
eq_of j k h = ground arith

flip_keeps :
    (x h : String) (refs acc : Dict String String)
    → OnlyOf x h refs
    → lookup h acc ≡ some x
    → lookup h (flip_refs refs acc) ≡ some x
unfolding flip_refs
flip_keeps x h [] acc only held = held
flip_keeps x h ((name, k) ∷ refs) acc (same, only) held =
    flip_keeps x h refs (insert k name acc) only (elim (Bool-cases (h == k)) [
      | inl e ↦ rw (lookup-insert h k name acc, e) (ap some (same (sym (eq_of h k e))))
      | inr e ↦ rw (lookup-insert h k name acc, e) held
    ])

flip_finds :
    (x h : String) (refs acc : Dict String String)
    → OnlyOf x h refs
    → lookup x refs ≡ some h
    → lookup h (flip_refs refs acc) ≡ some x
unfolding flip_refs lookup
flip_finds x h [] acc only found = absurd (cc found)
flip_finds x h ((name, k) ∷ refs) acc (same, only) found = elim (Bool-cases (x == name)) [
  | inl e ↦
      let here : some k ≡ some h = (rw e at found) in
      let at_h : k ≡ h = cc here in
      flip_keeps x h refs (insert k name acc) only
        (rw (lookup-insert h k name acc, at_h, ==_refl h) (ap some (sym (eq_of x name e))))
  | inr e ↦ flip_finds x h refs (insert k name acc) only (rw e at found)
]

translate_back :
    (refs names : Dict String String)
    → ((x h : String) → lookup x refs ≡ some h → OnlyOf x h refs → lookup h names ≡ some x)
    → (c : Dict String String) → Linked refs c
    → translate names (translate refs c) ≡ c
unfolding translate
translate_back refs names back [] h = refl
translate_back refs names back ((var, x) ∷ rest) ((h, bound, only), linked) =
    rw (bound, back x h bound only, translate_back refs names back rest linked) refl

blob_back :
    (refs : Dict String String) (blob : Blob)
    → Linked refs blob.closure_func_refs
    → translate_blob (flip_refs refs []) (translate_blob refs blob) ≡ blob
blob_back refs blob linked =
    ap (λ (c : Dict String String). record blob { closure_func_refs = c })
      (translate_back refs (flip_refs refs []) (λ x h bound only. flip_finds x h refs [] only bound)
        blob.closure_func_refs linked)

get-put_blob :
    (k h : String) (blob : Blob) (s : Store)
    → get (put_blob h blob s) k ≡ (if k == h then some blob else get s k)
unfolding get put_blob
get-put_blob k h blob s = lookup-insert k h blob s.objects

has_key-lookup :
    {V : Type 0} (k : String) (d : Dict String V) → has_key k d ≡ false → lookup k d ≡ none
unfolding has_key lookup
has_key-lookup k [] h = refl
has_key-lookup k ((j, v) ∷ d) h = ground (arith, h, has_key-lookup k d)

get-put_all :
    (refs : Dict String String) (objects : Dict String Blob) (s : Store) (k : String)
    → NodupKeys objects
    → AllLinked refs objects
    → get (put_all (flip_refs refs []) (export_objects refs objects) s) k
      ≡ or_else (lookup k objects) (get s k)
unfolding put_all export_objects lookup
get-put_all refs [] s k nodup linked = refl
get-put_all refs ((h, blob) ∷ rest) s k (new, nodup) (one, linked) =
    let names = flip_refs refs [] in
    let put = translate_blob names (translate_blob refs blob) in
    get-put_all refs rest (put_blob h put s) k nodup linked ∙ elim (Bool-cases (k == h)) [
      | inl e ↦
          rw
            (
              get-put_blob k h put s,
              e,
              eq_of k h e,
              has_key-lookup h rest new,
              blob_back refs blob one,
            )
            refl
      | inr e ↦ rw (get-put_blob k h put s, e) refl
    ]

-- What the three loops leave alone.
put_all-frame :
    (names : Dict String String) (objects : Dict String Blob) (s : Store)
    → ((put_all names objects s).deps ≡ s.deps) × ((put_all names objects s).refs ≡ s.refs)
unfolding put_all put_blob
put_all-frame names [] s = (refl, refl)
put_all-frame names ((h, blob) ∷ rest) s =
    put_all-frame names rest (put_blob h (translate_blob names blob) s)

set_deps-frame :
    (h : String) (ds : List String) (s : Store)
    → ((set_deps h ds s).objects ≡ s.objects) × ((set_deps h ds s).refs ≡ s.refs)
unfolding set_deps
set_deps-frame h [] s = (refl, refl)
set_deps-frame h (d ∷ ds) s = (refl, refl)

set_all_deps-frame :
    (deps : Dict String (List String)) (s : Store)
    → ((set_all_deps deps s).objects ≡ s.objects) × ((set_all_deps deps s).refs ≡ s.refs)
unfolding set_all_deps
set_all_deps-frame [] s = (refl, refl)
set_all_deps-frame ((h, ds) ∷ rest) s =
    let (o, r) = set_all_deps-frame rest (set_deps h ds s) in
    let (o', r') = set_deps-frame h ds s in (o ∙ o', r ∙ r')

set_all_refs-frame :
    (refs : Dict String String) (s : Store)
    → ((set_all_refs refs s).objects ≡ s.objects) × ((set_all_refs refs s).deps ≡ s.deps)
unfolding set_all_refs set_ref
set_all_refs-frame [] s = (refl, refl)
set_all_refs-frame ((name, h) ∷ rest) s = set_all_refs-frame rest (set_ref name h s)

get_deps-set_deps :
    (k h : String) (ds : List String) (s : Store)
    → get_deps (set_deps h ds s) k ≡ (if k == h then ds else get_deps s k)
unfolding set_deps get_deps
get_deps-set_deps k h [] s = ground (arith, lookup-erase k h s.deps)
get_deps-set_deps k h (d ∷ ds) s = ground (arith, lookup-insert k h (d ∷ ds) s.deps)

get_deps-set_all :
    (deps : Dict String (List String)) (s : Store) (k : String)
    → NodupKeys deps
    → get_deps (set_all_deps deps s) k ≡ or_empty (or_else (lookup k deps) (some (get_deps s k)))
unfolding set_all_deps lookup
get_deps-set_all [] s k nodup = refl
get_deps-set_all ((h, ds) ∷ rest) s k (new, nodup) =
    get_deps-set_all rest (set_deps h ds s) k nodup ∙ elim (Bool-cases (k == h)) [
      | inl e ↦ rw (get_deps-set_deps k h ds s, e, eq_of k h e, has_key-lookup h rest new) refl
      | inr e ↦ rw (get_deps-set_deps k h ds s, e) refl
    ]

get_ref-set_all :
    (refs : Dict String String) (s : Store) (k : String)
    → NodupKeys refs
    → get_ref (set_all_refs refs s) k ≡ or_else (lookup k refs) (get_ref s k)
unfolding set_all_refs set_ref get_ref lookup
get_ref-set_all [] s k nodup = refl
get_ref-set_all ((name, h) ∷ rest) s k (new, nodup) =
    get_ref-set_all rest (set_ref name h s) k nodup ∙ elim (Bool-cases (k == name)) [
      | inl e ↦
          rw (lookup-insert k name h s.refs, e, eq_of k name e, has_key-lookup name rest new) refl
      | inr e ↦ rw (lookup-insert k name h s.refs, e) refl
    ]

or_none : {A : Type 0} (o : Option A) → or_else o none ≡ o
or_none none = refl
or_none (some a) = refl

or_nothing : (o : Option (List String)) → or_empty (or_else o (some [])) ≡ or_empty o
or_nothing none = refl
or_nothing (some ds) = refl

-- A store survives its export: if its dicts have each key once, and each name that a closure refers to has a
-- hash that no other name has, then the store that `from_dict` builds from `to_dict` has the same
-- content blob, dependencies and reference under every key.
pub store_round_trip :
    (s : Store) (k : String)
    → NodupKeys s.objects
    → NodupKeys s.deps
    → NodupKeys s.refs
    → AllLinked s.refs s.objects
    → let back = store_from_dict (store_to_dict s) in
      (get back k ≡ get s k) × (get_deps back k ≡ get_deps s k) × (get_ref back k ≡ get_ref s k)
unfolding store_from_dict store_to_dict
store_round_trip s k one_object one_deps one_ref linked =
    let put = put_all (flip_refs s.refs []) (export_objects s.refs s.objects) empty_store in
    let with_deps = set_all_deps s.deps put in
    let back = set_all_refs s.refs with_deps in
    let (o₁, d₁) = set_all_refs-frame s.refs with_deps in
    let (o₂, r₂) = set_all_deps-frame s.deps put in
    let (d₃, r₃) =
      put_all-frame (flip_refs s.refs []) (export_objects s.refs s.objects) empty_store in
    let object : get back k ≡ get s k =
      unfold get lookup in
      ap (lookup k) (o₁ ∙ o₂)
      ∙ get-put_all s.refs s.objects empty_store k one_object linked
      ∙ or_none (lookup k s.objects) in
    let empty : get_deps put k ≡ [] =
      unfold get_deps lookup in ap (λ d. or_empty (lookup k d)) d₃ in
    let dependencies : get_deps back k ≡ get_deps s k =
      unfold get_deps in
      ap (λ d. or_empty (lookup k d)) d₁
      ∙ get_deps-set_all s.deps put k one_deps
      ∙ ap (λ ds. or_empty (or_else (lookup k s.deps) (some ds))) empty
      ∙ or_nothing (lookup k s.deps) in
    let reference : get_ref back k ≡ get_ref s k =
      unfold get_ref lookup in
      get_ref-set_all s.refs with_deps k one_ref
      ∙ ap (λ r. or_else (lookup k s.refs) (lookup k r)) (r₂ ∙ r₃)
      ∙ or_none (lookup k s.refs) in
    (object, dependencies, reference)
