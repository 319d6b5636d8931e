-- ===== src/Graph/Store/Export.antt =====
-- `to_dict` and `from_dict` of `Store` in offwork/graph/store.py: in the exported dict the references of
-- closures are hashes instead of qualified names.
pub mod RoundTrip
use offwork.Base.{
  String, ◌≡◌, refl, sym, ap, ◌∙◌, inl, inr, Bool, true, false, Option, none, some, List, [], ◌∷◌,
  arith, ◌==◌, ==_refl, string_eq, Bool-cases, if◌then◌else◌,
}
use offwork.Base.Dict.{Dict, lookup, insert, has_key, NodupKeys, lookup-insert, lookup-erase}
use offwork.Graph.Models.{Blob}
use offwork.Graph.Store.{
  Store, empty_store, put_blob, get, set_deps, get_deps, or_empty, set_ref, get_ref,
}
use offwork.Graph.Store.Merge.{or_else}
use offwork.Graph.Store.Subgraph.{flip_refs}

pub record Export : Type 0 where
  pub objects : Dict String Blob
  pub deps : Dict String (List String)
  pub refs : Dict String String

-- `names.get(x, x)`
abbrev pub or_self : String → Option String → String
or_self x none = x
or_self x (some y) = y

-- `{var: names.get(x, x) for var, x in refs.items()}`
unfoldable pub translate : Dict String String → Dict String String → Dict String String
translate names [] = []
translate names ((var, x) ∷ rest) = (var, or_self x (lookup x names)) ∷ translate names rest

abbrev pub translate_blob : Dict String String → Blob → Blob
translate_blob names blob = record blob {
  closure_func_refs = translate names blob.closure_func_refs;
}

unfoldable pub export_objects : Dict String String → Dict String Blob → Dict String Blob
export_objects names [] = []
export_objects names ((h, blob) ∷ rest) = (h, translate_blob names blob) ∷ export_objects names rest

unfoldable pub store_to_dict : Store → Export
store_to_dict s = record { objects = export_objects s.refs s.objects; deps = s.deps; refs = s.refs }

unfoldable pub put_all : Dict String String → Dict String Blob → Store → Store
put_all names [] s = s
put_all names ((h, blob) ∷ rest) s = put_all names rest (put_blob h (translate_blob names blob) s)

unfoldable pub set_all_deps : Dict String (List String) → Store → Store
set_all_deps [] s = s
set_all_deps ((h, dep_list) ∷ rest) s = set_all_deps rest (set_deps h dep_list s)

unfoldable pub set_all_refs : Dict String String → Store → Store
set_all_refs [] s = s
set_all_refs ((name, h) ∷ rest) s = set_all_refs rest (set_ref name h s)

unfoldable pub store_from_dict : Export → Store
unfolding put_all set_all_deps set_all_refs
store_from_dict exported =
    set_all_refs exported.refs (
      set_all_deps exported.deps
        (put_all (flip_refs exported.refs []) exported.objects empty_store))
