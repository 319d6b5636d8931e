-- ===== src/Graph/Store.antt =====
-- offwork/graph/store.py, `class Store`: content blobs, dependency lists and named references.
-- The three dicts of the object are the fields of `Store`; a method that mutates returns the store.
pub mod Walk
pub mod Gc
pub mod Merge
pub mod Subgraph
pub mod Export
use offwork.Base.{
  ℕ, zero, suc, ◌+◌, String, ◌<>◌, Bool, true, false, not, Option, none, some, List, [], ◌∷◌, ◌++◌,
  map, reverse, ◌==◌, contains, string_eq, if◌then◌else◌, length, select, is_some,
}
use offwork.Base.Dict.{Dict, keys, values, lookup, insert, erase, has_key}
use offwork.Graph.Models.{ImportInfo, Blob, FunctionNode}

pub record Store : Type 0 where
  pub objects : Dict String Blob
  pub deps : Dict String (List String)
  pub refs : Dict String String

-- `__init__`
abbrev pub empty_store : Store
empty_store = record { objects = []; deps = []; refs = [] }

unfoldable pub put_blob : String → Blob → Store → Store
put_blob h blob s = record s { objects = insert h blob s.objects }

-- `put`, over `content_hash` of models.py: SHA-256 is not code of the repository.
unfoldable pub put : (FunctionNode → String) → FunctionNode → Store → String × Store
unfolding put_blob
put content_hash node s =
    let h = content_hash node in (h, if has_key h s.objects then s else put_blob h node.content s)

unfoldable pub get : Store → String → Option Blob
get s h = lookup h s.objects

unfoldable pub set_deps : String → List String → Store → Store
set_deps h [] s = record s { deps = erase h s.deps }
set_deps h (d ∷ ds) s = record s { deps = insert h (d ∷ ds) s.deps }

abbrev pub or_empty : Option (List String) → List String
or_empty none = []
or_empty (some ds) = ds

unfoldable pub get_deps : Store → String → List String
get_deps s h = or_empty (lookup h s.deps)

unfoldable pub set_ref : String → String → Store → Store
set_ref name h s = record s { refs = insert name h s.refs }

unfoldable pub get_ref : Store → String → Option String
get_ref s name = lookup name s.refs

unfoldable pub del_ref : String → Store → Store
del_ref name s = record s { refs = erase name s.refs }

-- `visited[h] = None`, where `visited` is a dict of which only the keys matter.
abbrev pub visit : String → List String → List String
visit h visited = if contains visited h then visited else visited ++ h ∷ []

-- The `while stack` loop of `walk`. The head of the list is the end of Python's stack, so
-- `stack.extend(deps)` puts the dependencies in front, the last one first.
module _ (s : Store) where
  unfoldable pub walk_loop : ℕ → List String → List String → List String
  walk_loop zero visited stack = visited
  walk_loop (suc fuel) visited [] = visited
  walk_loop (suc fuel) visited (h ∷ stack) = elim (contains visited h) [
    | true ↦ walk_loop fuel visited stack
    | false ↦ walk_loop fuel (visit h visited) (reverse (get_deps s h) ++ stack)
  ]

-- Each entry of `deps` is pushed once at most, so this many rounds empty the stack.
unfoldable pub edge_count : Dict String (List String) → ℕ
edge_count [] = 0
edge_count ((_, ds) ∷ d) = length ds + edge_count d

unfoldable pub walk : Store → String → List String
unfolding walk_loop edge_count get_deps
walk s root = walk_loop s (suc (suc (edge_count s.deps))) [] (root ∷ [])
