-- ===== src/Graph/Models/Wire/RoundTrip.antt =====
-- The dict of `FunctionNode` in offwork/core/models.py, written and read.
use offwork.Base.{String, ◌≡◌, refl, Option, none, some, List, [], ◌∷◌, string_eq}
use offwork.Base.Dict.{Dict}
use offwork.Core.Json.{str, list, get_field, field_laws}
use offwork.Core.Task.{read_opt_str}
use offwork.Core.Task.Wire.{read_laws}
use offwork.Graph.Models.{ImportInfo, FunctionNode}
use offwork.Graph.Models.Wire.{
  texts, read_texts, pairs, read_pairs, texts_field, pairs_field, get_texts, get_pairs, null_or,
  import_to_dict, import_from_dict, imports_to_json, imports_from_json, node_to_dict,
  to_content_blob, content_from_dict, node_from_dict,
}

read_texts-texts : (xs : List String) → read_texts (texts xs) ≡ some xs
unfolding read_texts texts
read_texts-texts [] = refl
read_texts-texts (x ∷ xs) = rw (read_texts-texts xs) refl

read_pairs-pairs : (d : Dict String String) → read_pairs (pairs d) ≡ some d
unfolding read_pairs pairs
read_pairs-pairs [] = refl
read_pairs-pairs ((k, v) ∷ d) = rw (read_pairs-pairs d) refl

get_texts-field : (xs : List String) → get_texts (texts_field xs) ≡ some xs
get_texts-field [] = refl
get_texts-field (x ∷ xs) = read_texts-texts (x ∷ xs)

get_pairs-field : (d : Dict String String) → get_pairs (pairs_field d) ≡ some d
get_pairs-field [] = refl
get_pairs-field (p ∷ d) = read_pairs-pairs (p ∷ d)

read_opt_str-null_or : (o : Option String) → read_opt_str (some (null_or o)) ≡ some o
read_opt_str-null_or none = refl
read_opt_str-null_or (some s) = refl

import_round_trip : (imp : ImportInfo) → import_from_dict (import_to_dict imp) ≡ some imp
unfolding import_from_dict import_to_dict string_eq
import_round_trip imp = simp (field_laws, read_laws)

imports_round_trip : (imps : List ImportInfo) → imports_from_json (imports_to_json imps) ≡ some imps
unfolding imports_from_json imports_to_json
imports_round_trip [] = refl
imports_round_trip (imp ∷ imps) = rw (import_round_trip imp, imports_round_trip imps) refl

content_round_trip :
    (node : FunctionNode) → content_from_dict (node_to_dict node) ≡ some node.content
unfolding content_from_dict node_to_dict string_eq
content_round_trip node =
    simp (field_laws, get_texts-field, get_pairs-field, read_opt_str-null_or, imports_round_trip)

-- The content that the store keeps for a node has all of the node but its name and dependencies.
pub content_from_dict-to_content_blob :
    (node : FunctionNode) → content_from_dict (to_content_blob node) ≡ some node.content
unfolding content_from_dict to_content_blob string_eq
content_from_dict-to_content_blob node =
    simp (field_laws, get_texts-field, get_pairs-field, read_opt_str-null_or, imports_round_trip)

name_written :
    (node : FunctionNode)
    → get_field "qualified_name" (node_to_dict node) ≡ some (str node.qualified_name)
unfolding node_to_dict string_eq
name_written node = simp field_laws

dependencies_written :
    (node : FunctionNode)
    → get_field "dependencies" (node_to_dict node) ≡ some (list (texts node.dependencies))
unfolding node_to_dict string_eq
dependencies_written node = simp field_laws

-- A function node survives its dict: `from_dict` of what `to_dict` makes is the node, whichever of its
-- optional fields are empty and left out.
pub node_round_trip : (node : FunctionNode) → node_from_dict (node_to_dict node) ≡ some node
unfolding node_from_dict
node_round_trip node =
    rw
      (
        content_round_trip node,
        name_written node,
        dependencies_written node,
        read_texts-texts node.dependencies,
      )
      refl
