-- ===== src/Examples/Graph.antt =====
-- A store with a cycle, a garbage hash and a reference.
use offwork.Base.{
  String, ◌+◌, ◌≡◌, ◌≢◌, ◌↔◌, refl, ap, true, false, ◌==◌, ◌||◌, none, some, [], ◌∷◌, string_eq,
  contains, length,
}
use offwork.Base.Dict.{lookup, values, NodupKeys, has_key}
use offwork.Graph.Models.{Blob, FunctionNode}
use offwork.Graph.Models.Wire.{node_to_dict, node_from_dict}
use offwork.Graph.Models.Wire.RoundTrip.{node_round_trip}
use offwork.Graph.Store.Subgraph.{subgraph, subgraph_is_closure}
use offwork.Graph.Store.{Store, get, get_ref, get_deps, walk}
use offwork.Graph.Store.Walk.{Reach, walk-iff-Reach}
use offwork.Graph.Store.Gc.{From, gc, Rooted, gc_keeps_reachable}
use offwork.Graph.Store.Export.{store_to_dict, store_from_dict}
use offwork.Graph.Store.Export.RoundTrip.{OnlyOf, store_round_trip}
use offwork.Graph.Store.Merge.{merge, or_else, conflict_of, merge_joins}
use offwork.Graph.Store.Gc.{gc_idem}
use offwork.Graph.Store.Merge.{merge-Reach}

abbrev blob : Blob
blob = record {
  name = "f";
  module_name = "m";
  source = "def f(): pass";
  imports = [];
  owner_class = none;
  closure_vars = [];
  closure_func_refs = [];
  module_vars = [];
  class_bases = [];
  class_keywords = [];
  class_attrs = [];
  class_decorators = [];
}

-- "a" and "b" call each other, nothing refers to "c".
abbrev ours : Store
ours = record {
  objects = ("a", blob) ∷ ("b", blob) ∷ ("c", blob) ∷ [];
  deps = ("a", "b" ∷ []) ∷ ("b", "a" ∷ []) ∷ [];
  refs = ("main", "a") ∷ [];
}

abbrev theirs : Store
theirs = record {
  objects = ("b", blob) ∷ ("d", blob) ∷ [];
  deps = ("b", "d" ∷ []) ∷ [];
  refs = ("main", "b") ∷ [];
}

walk-iff-Reach_example : (contains (walk ours "a") "b" ≡ true) ↔ Reach ours "a" "b"
walk-iff-Reach_example = walk-iff-Reach ours "a" "b"

gc_keeps_reachable_example :
    ((gc ours).1.refs ≡ ours.refs)
    × (Rooted ours "c" → get (gc ours).1 "c" ≡ get ours "c")
    × (¬ (Rooted ours "c") → get (gc ours).1 "c" ≡ none)
    × ((root : String)
        → contains (values ours.refs) root ≡ true
        → Reach (gc ours).1 root "c" ↔ Reach ours root "c")
gc_keeps_reachable_example = gc_keeps_reachable ours "c"

one_dep : NodupKeys theirs.deps
unfolding has_key
one_dep = (refl, tt)

one_ref : NodupKeys theirs.refs
unfolding has_key
one_ref = (refl, tt)

merge_joins_example :
    (get (merge ours theirs).0 "b" ≡ or_else (get ours "b") (get theirs "b"))
    × (get_ref (merge ours theirs).0 "b" ≡ or_else (get_ref ours "b") (get_ref theirs "b"))
    × ((d : String)
        → contains (get_deps (merge ours theirs).0 "b") d
          ≡ (contains (get_deps ours "b") d || contains (get_deps theirs "b") d))
    × (lookup "b" (merge ours theirs).1.conflicts
        ≡ conflict_of (get_ref ours "b") (get_ref theirs "b") none)
    × (length (merge ours theirs).0.objects
        ≡ length ours.objects + (merge ours theirs).1.added_objects)
merge_joins_example = merge_joins ours theirs "b" one_dep one_ref

subgraph_is_closure_example :
    (From ours ("a" ∷ []) "b" → get (subgraph ours ("a" ∷ [])) "b" ≡ get ours "b")
    × (¬ (From ours ("a" ∷ []) "b") → get (subgraph ours ("a" ∷ [])) "b" ≡ none)
    × (From ours ("a" ∷ []) "b"
        → (d : String)
        → contains (get_deps (subgraph ours ("a" ∷ [])) "b") d ≡ contains (get_deps ours "b") d)
subgraph_is_closure_example = subgraph_is_closure ours ("a" ∷ []) "b"

abbrev node : FunctionNode
node = record { qualified_name = "m.f"; dependencies = "m.g" ∷ []; content = blob }

node_round_trip_example : node_from_dict (node_to_dict node) ≡ some node
node_round_trip_example = node_round_trip node

-- The closure of "m.f" refers to "m.g".
abbrev closed : Store
closed = record {
  objects = ("h1", record blob { closure_func_refs = ("g", "m.g") ∷ [] }) ∷ ("h2", blob) ∷ [];
  deps = ("h1", "h2" ∷ []) ∷ [];
  refs = ("m.f", "h1") ∷ ("m.g", "h2") ∷ [];
}

h1_is_not_h2 : ◌≢◌ {A = String} "h1" "h2"
unfolding string_eq
h1_is_not_h2 = λ e. let p : false ≡ true = ap (λ (s : String). s == "h2") e in cc p

bound : (h : String) × (lookup "m.g" closed.refs ≡ some h) × OnlyOf "m.g" h closed.refs
unfolding lookup string_eq
bound = ("h2", refl, ((λ e. absurd (h1_is_not_h2 e)), ((λ _. refl), tt)))

closed_once : NodupKeys closed.objects × NodupKeys closed.deps × NodupKeys closed.refs
unfolding has_key string_eq
closed_once = ((refl, (refl, tt)), (refl, tt), (refl, (refl, tt)))

store_round_trip_example :
    let back = store_from_dict (store_to_dict closed) in
    (get back "h1" ≡ get closed "h1")
    × (get_deps back "h1" ≡ get_deps closed "h1")
    × (get_ref back "h1" ≡ get_ref closed "h1")
store_round_trip_example =
    store_round_trip closed "h1" closed_once.0 closed_once.1 closed_once.2 ((bound, tt), (tt, tt))

gc_idem_example : (gc (gc ours).1).0 ≡ []
gc_idem_example = gc_idem ours

merge-Reach_example :
    (Reach ours "a" "d" → Reach (merge ours theirs).0 "a" "d")
    × (Reach theirs "a" "d" → Reach (merge ours theirs).0 "a" "d")
merge-Reach_example = merge-Reach ours theirs "a" "d" one_dep
