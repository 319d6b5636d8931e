-- ===== src/Graph/Models.antt =====
-- offwork/core/models.py: import bindings and function nodes.
pub mod Wire
use offwork.Base.{String, Bool, Option, List}
use offwork.Base.Dict.{Dict}

pub record ImportInfo : Type 0 where
  pub statement : String
  pub bound_name : String
  pub package_name : Option String
  pub worker_only : Bool

-- The content of a node, as the store keeps it. A field that `to_content_blob` leaves out when it
-- is empty is the empty dict or list here, which is what every reader takes for a missing key.
pub record Blob : Type 0 where
  pub name : String
  pub module_name : String
  pub source : String
  pub imports : List ImportInfo
  pub owner_class : Option String
  pub closure_vars : Dict String String
  pub closure_func_refs : Dict String String
  pub module_vars : Dict String String
  pub class_bases : List String
  pub class_keywords : Dict String String
  pub class_attrs : List String
  pub class_decorators : List String

pub record FunctionNode : Type 0 where
  pub qualified_name : String
  pub dependencies : List String
  pub content : Blob
  pub open content use {
    name, module_name, source, imports, owner_class, closure_vars, closure_func_refs, module_vars,
    class_bases, class_keywords, class_attrs, class_decorators,
  }
