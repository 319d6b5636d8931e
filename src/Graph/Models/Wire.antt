-- ===== src/Graph/Models/Wire.antt =====
-- `to_dict` and `from_dict` of `ImportInfo` and `FunctionNode` in offwork/core/models.py. Python's
-- `from_dict` takes field values of any type; here a value of another type than the field's is `none`.
pub mod RoundTrip
use offwork.Base.{String, Bool, Option, none, some, List, [], ◌∷◌, ◌>>=◌, string_eq}
use offwork.Base.Dict.{Dict}
use offwork.Core.Json.{
  Json, null, str, list, dict, Items, nil, cons, Fields, end, field, get_field, opt_field,
}
use offwork.Core.Task.{opt_str, flag, read_str, read_opt_str, read_flag}
use offwork.Graph.Models.{ImportInfo, Blob, FunctionNode}

-- Lists and dicts of texts as JSON.
unfoldable pub texts : List String → Items
texts [] = nil
texts (x ∷ xs) = cons (str x) (texts xs)

unfoldable pub read_texts : Items → Option (List String)
read_texts nil = some []
read_texts (cons v xs) = do x ← read_str (some v); rest ← read_texts xs; some (x ∷ rest)

unfoldable pub pairs : Dict String String → Fields
pairs [] = end
pairs ((k, v) ∷ d) = field k (str v) (pairs d)

unfoldable pub read_pairs : Fields → Option (Dict String String)
read_pairs end = some []
read_pairs (field k v fs) = do x ← read_str (some v); rest ← read_pairs fs; some ((k, x) ∷ rest)

-- `if xs: d[k] = …`
abbrev pub texts_field : List String → Option Json
texts_field [] = none
texts_field (x ∷ xs) = some (list (texts (x ∷ xs)))

abbrev pub pairs_field : Dict String String → Option Json
pairs_field [] = none
pairs_field (p ∷ d) = some (dict (pairs (p ∷ d)))

-- `data.get(k, [])` and `data.get(k, {})`
abbrev pub get_texts : Option Json → Option (List String)
get_texts none = some []
get_texts (some (list xs)) = read_texts xs
get_texts (some _) = none

abbrev pub get_pairs : Option Json → Option (Dict String String)
get_pairs none = some []
get_pairs (some (dict fs)) = read_pairs fs
get_pairs (some _) = none

-- `data[k]`, a list.
abbrev pub items_at : Option Json → Option Items
items_at (some (list xs)) = some xs
items_at _ = none

abbrev pub null_or : Option String → Json
null_or none = null
null_or (some s) = str s

unfoldable pub import_to_dict : ImportInfo → Fields
import_to_dict imp = field "statement" (str imp.statement) (
    field "bound_name" (str imp.bound_name) (
      opt_field "package" (opt_str imp.package_name)
        (opt_field "worker_only" (flag imp.worker_only) end)))

unfoldable pub import_from_dict : Fields → Option ImportInfo
import_from_dict d = do
  statement ← read_str (get_field "statement" d)
  bound_name ← read_str (get_field "bound_name" d)
  package_name ← read_opt_str (get_field "package" d)
  some (record {
    statement = statement;
    bound_name = bound_name;
    package_name = package_name;
    worker_only = read_flag (get_field "worker_only" d);
  })

unfoldable pub imports_to_json : List ImportInfo → Items
imports_to_json [] = nil
imports_to_json (imp ∷ imps) = cons (dict (import_to_dict imp)) (imports_to_json imps)

abbrev pub fields_of : Json → Option Fields
fields_of (dict fs) = some fs
fields_of _ = none

unfoldable pub imports_from_json : Items → Option (List ImportInfo)
imports_from_json nil = some []
imports_from_json (cons v xs) = do
  fs ← fields_of v
  imp ← import_from_dict fs
  rest ← imports_from_json xs
  some (imp ∷ rest)

-- The keys that are left out when they are empty.
abbrev pub optional_fields : Blob → Fields
optional_fields b = opt_field "closure_vars" (pairs_field b.closure_vars) (
    opt_field "closure_func_refs" (pairs_field b.closure_func_refs) (
      opt_field "module_vars" (pairs_field b.module_vars) (
        opt_field "class_bases" (texts_field b.class_bases) (
          opt_field "class_keywords" (pairs_field b.class_keywords) (
            opt_field "class_attrs" (texts_field b.class_attrs)
              (opt_field "class_decorators" (texts_field b.class_decorators) end))))))

unfoldable pub node_to_dict : FunctionNode → Fields
node_to_dict node = field "qualified_name" (str node.qualified_name) (
    field "name" (str node.name) (
      field "module" (str node.module_name) (
        field "source" (str node.source) (
          field "imports" (list (imports_to_json node.imports)) (
            field "dependencies" (list (texts node.dependencies))
              (field "owner_class" (null_or node.owner_class) (optional_fields node.content)))))))

-- What the store keeps of a node. `Blob` stands for this dict: `content_from_dict` reads it back.
unfoldable pub to_content_blob : FunctionNode → Fields
to_content_blob node = field "name" (str node.name) (
    field "module" (str node.module_name) (
      field "source" (str node.source) (
        field "imports" (list (imports_to_json node.imports))
          (field "owner_class" (null_or node.owner_class) (optional_fields node.content)))))

unfoldable pub content_from_dict : Fields → Option Blob
content_from_dict d = do
  name ← read_str (get_field "name" d)
  module_name ← read_str (get_field "module" d)
  source ← read_str (get_field "source" d)
  imports ← items_at (get_field "imports" d) >>= imports_from_json
  owner_class ← read_opt_str (get_field "owner_class" d)
  closure_vars ← get_pairs (get_field "closure_vars" d)
  closure_func_refs ← get_pairs (get_field "closure_func_refs" d)
  module_vars ← get_pairs (get_field "module_vars" d)
  class_bases ← get_texts (get_field "class_bases" d)
  class_keywords ← get_pairs (get_field "class_keywords" d)
  class_attrs ← get_texts (get_field "class_attrs" d)
  class_decorators ← get_texts (get_field "class_decorators" d)
  some (record {
    name = name;
    module_name = module_name;
    source = source;
    imports = imports;
    owner_class = owner_class;
    closure_vars = closure_vars;
    closure_func_refs = closure_func_refs;
    module_vars = module_vars;
    class_bases = class_bases;
    class_keywords = class_keywords;
    class_attrs = class_attrs;
    class_decorators = class_decorators;
  })

-- `none` is also the KeyError of a missing required field.
unfoldable pub node_from_dict : Fields → Option FunctionNode
node_from_dict d = do
  qualified_name ← read_str (get_field "qualified_name" d)
  dependencies ← items_at (get_field "dependencies" d) >>= read_texts
  content ← content_from_dict d
  some (record { qualified_name = qualified_name; dependencies = dependencies; content = content })
