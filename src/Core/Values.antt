-- ===== src/Core/Values.antt =====
-- The values that a task or a result carries, of offwork/core/task.py: `_to_jsonable`, which writes a
-- Python value as JSON with sentinel dicts, and `_resolve` with an empty namespace, which is how a
-- client reads a result and a yielded value.
pub mod RoundTrip
use offwork.Base.{
  ◌>>=◌, ℕ, String, Bool, ◌||◌, Option, none, some, List, [], ◌∷◌, ◌==◌, string_eq, if◌then◌else◌,
}
use offwork.Core.Json.{
  Json, null, nan, bool, num, str, list, dict, Items, nil, cons, Fields, end, field, get_field,
}

-- `type(o).__name__` of a bytes-like object.
pub data BytesKind : Type 0 where
  plain_bytes byte_array memory_view : BytesKind

-- A bytes-like object is its base64 text and a pickled one the text of its pickle. `builtin` is an
-- object of a type of `_encode_builtin` other than an enum, or a dict of a class of its own, as the
-- payload that encodes it; a class instance has its class and state.
mutual
  pub data Value : Type 0 where
    none_value nan_value : Value
    boolean : Bool → Value
    number : ℕ → Value
    text : String → Value
    bytes_like : BytesKind → String → Value
    tuple : Values → Value
    named_tuple : (cls : String) (fields : List String) → Values → Value
    sequence : Values → Value
    mapping : Entries → Value
    keyed : Pairs → Value
    enum_member : (cls name : String) → Value → Value
    builtin : Fields → Value
    instance_of : (cls : String) → Entries → Value
    pickled : String → Value

  pub data Values : Type 0 where
    nothing : Values
    more : Value → Values → Values

  -- A dict whose keys are texts.
  pub data Entries : Type 0 where
    empty : Entries
    entry : String → Value → Entries → Entries

  -- A dict with a key that is no text.
  pub data Pairs : Type 0 where
    no_pair : Pairs
    pair : Value → Value → Pairs → Pairs

abbrev pub object_sentinel : String
object_sentinel = "__offwork_obj__"

abbrev pub bytes_sentinel : String
bytes_sentinel = "__offwork_bytes__"

abbrev pub builtin_sentinel : String
builtin_sentinel = "__offwork_builtin__"

abbrev pub tuple_sentinel : String
tuple_sentinel = "__offwork_tuple__"

abbrev pub dict_sentinel : String
dict_sentinel = "__offwork_dict__"

abbrev pub pickle_sentinel : String
pickle_sentinel = "__offwork_pickle__"

abbrev pub kind_name : BytesKind → String
kind_name plain_bytes = "bytes"
kind_name byte_array = "bytearray"
kind_name memory_view = "memoryview"

-- A dict with one key.
abbrev pub single : String → Json → Json
single k v = dict (field k v end)

abbrev pub texts : List String → Items
texts [] = nil
texts (s ∷ ss) = cons (str s) (texts ss)

-- The payload of a namedtuple, of an enum member, and of a class instance.
abbrev pub named_tuple_info : String → List String → Items → Fields
named_tuple_info cls fields values = field "type" (str "namedtuple") (
    field "cls" (str cls) (field "fields" (list (texts fields)) (field "values" (list values) end)))

abbrev pub enum_info : String → String → Json → Fields
enum_info cls name value =
    field "type" (str "enum")
      (field "cls" (str cls) (field "name" (str name) (field "value" value end)))

abbrev pub object_info : String → Fields → Fields
object_info cls state = field "class" (str cls) (field "state" (dict state) end)

unfoldable mutual
  pub to_jsonable : Value → Json
  to_jsonable none_value = null
  to_jsonable nan_value = nan
  to_jsonable (boolean b) = bool b
  to_jsonable (number n) = num n
  to_jsonable (text s) = str s
  to_jsonable (bytes_like kind data64) =
      single bytes_sentinel
        (dict (field "data" (str data64) (field "type" (str (kind_name kind)) end)))
  to_jsonable (tuple vs) = single tuple_sentinel (list (to_items vs))
  to_jsonable (named_tuple cls fields vs) =
      single builtin_sentinel (dict (named_tuple_info cls fields (to_items vs)))
  to_jsonable (sequence vs) = list (to_items vs)
  to_jsonable (mapping es) = dict (to_fields es)
  to_jsonable (keyed ps) = single dict_sentinel (list (to_pairs ps))
  to_jsonable (enum_member cls name v) =
      single builtin_sentinel (dict (enum_info cls name (to_jsonable v)))
  to_jsonable (builtin info) = single builtin_sentinel (dict info)
  to_jsonable (instance_of cls state) =
      single object_sentinel (dict (object_info cls (to_fields state)))
  to_jsonable (pickled data64) = single pickle_sentinel (str data64)

  pub to_items : Values → Items
  to_items nothing = nil
  to_items (more v vs) = cons (to_jsonable v) (to_items vs)

  pub to_fields : Entries → Fields
  to_fields empty = end
  to_fields (entry k v es) = field k (to_jsonable v) (to_fields es)

  pub to_pairs : Pairs → Items
  to_pairs no_pair = nil
  to_pairs (pair k v ps) =
      cons (list (cons (to_jsonable k) (cons (to_jsonable v) nil))) (to_pairs ps)

-- The Python value that a JSON value is before it is resolved.
unfoldable mutual
  pub loaded : Json → Value
  loaded null = none_value
  loaded nan = nan_value
  loaded (bool b) = boolean b
  loaded (num n) = number n
  loaded (str s) = text s
  loaded (list xs) = sequence (loaded_items xs)
  loaded (dict fs) = mapping (loaded_fields fs)

  pub loaded_items : Items → Values
  loaded_items nil = nothing
  loaded_items (cons x xs) = more (loaded x) (loaded_items xs)

  pub loaded_fields : Fields → Entries
  loaded_fields end = empty
  loaded_fields (field k v fs) = entry k (loaded v) (loaded_fields fs)

abbrev pub is_sentinel : String → Bool
is_sentinel k =
    k == object_sentinel
    || k == bytes_sentinel
    || k == builtin_sentinel
    || k == tuple_sentinel
    || k == dict_sentinel
    || k == pickle_sentinel

-- `info.get("type")` of a bytes-like object.
abbrev pub kind_of : Option Json → BytesKind
kind_of (some (str s)) =
    if s == "bytearray" then byte_array else if s == "memoryview" then memory_view else plain_bytes
kind_of _ = plain_bytes

abbrev bytes_with : Option Json → Option Json → Option Value
bytes_with (some (str data64)) kind = some (bytes_like (kind_of kind) data64)
bytes_with _ kind = none

abbrev pub read_bytes_like : Json → Option Value
read_bytes_like (dict info) = bytes_with (get_field "data" info) (get_field "type" info)
read_bytes_like _ = none

-- `tuple(…)` of a list that is resolved.
abbrev pub as_tuple : Option Value → Option Value
as_tuple (some (sequence vs)) = some (tuple vs)
as_tuple _ = none

unfoldable pub as_pairs : Values → Option Pairs
as_pairs nothing = some no_pair
as_pairs (more (sequence (more k (more v nothing))) vs) = do ps ← as_pairs vs; some (pair k v ps)
as_pairs (more _ _) = none

abbrev pub as_keyed : Option Value → Option Value
as_keyed (some (sequence vs)) = as_pairs vs >>= (λ ps. some (keyed ps))
as_keyed _ = none

abbrev pub as_pickled : Json → Option Value
as_pickled (str data64) = some (pickled data64)
as_pickled _ = none

unfoldable pub get_entry : String → Entries → Option Value
get_entry k empty = none
get_entry k (entry j v es) = if k == j then some v else get_entry k es

-- `namespace.get(info["class"])` finds no class, so the sentinel dict itself is the value.
abbrev pub reconstruct_object : Json → Option Value
reconstruct_object info = some (mapping (entry object_sentinel (loaded info) empty))

abbrev pub or_none_value : Option Value → Value
or_none_value none = none_value
or_none_value (some v) = v

-- `_decode_builtin` of a payload, with its fields resolved: without the class, a namedtuple is a tuple
-- and an enum member the value that it stands for.
abbrev pub entries_of : Option Value → Option Entries
entries_of (some (mapping es)) = some es
entries_of _ = none

abbrev pub decode_kind : String → Fields → Option Entries → Option Value
decode_kind kind info entries =
    if kind == "namedtuple"
    then as_tuple (entries >>= get_entry "values")
    else if kind == "enum"
    then entries >>= (λ es. some (or_none_value (get_entry "value" es)))
    else some (builtin info)

abbrev decode_typed : Option Json → Fields → Option Value → Option Value
decode_typed (some (str kind)) info resolved = decode_kind kind info (entries_of resolved)
decode_typed _ info resolved = none

abbrev pub decode_builtin : Json → Option Value → Option Value
decode_builtin (dict info) resolved = decode_typed (get_field "type" info) info resolved
decode_builtin _ resolved = none

-- A dict with one key: its payload, and the payload resolved.
unfoldable pub resolve_single : String → Json → Option Value → Option Value
resolve_single k payload resolved =
    if k == object_sentinel
    then reconstruct_object payload
    else if k == bytes_sentinel
    then read_bytes_like payload
    else if k == builtin_sentinel
    then decode_builtin payload resolved
    else if k == tuple_sentinel
    then as_tuple resolved
    else if k == dict_sentinel
    then as_keyed resolved
    else if k == pickle_sentinel
    then as_pickled payload
    else resolved >>= (λ v. some (mapping (entry k v empty)))

-- `_resolve(value, {})`. `none` is an exception, or a payload of a shape that the encoder does not
-- write; whether base64, pickle and the types of `builtin` take a payload is outside the model.
unfoldable mutual
  unfolding resolve_single

  pub resolve : Json → Option Value
  resolve null = some none_value
  resolve nan = some nan_value
  resolve (bool b) = some (boolean b)
  resolve (num n) = some (number n)
  resolve (str s) = some (text s)
  resolve (list xs) = resolve_items xs >>= (λ vs. some (sequence vs))
  resolve (dict end) = some (mapping empty)
  resolve (dict (field k v end)) = resolve_single k v (resolve v)
  resolve (dict (field k v (field j w fs))) = do
    value ← resolve v
    rest ← resolve_fields (field j w fs)
    some (mapping (entry k value rest))

  pub resolve_items : Items → Option Values
  resolve_items nil = some nothing
  resolve_items (cons x xs) = do v ← resolve x; vs ← resolve_items xs; some (more v vs)

  pub resolve_fields : Fields → Option Entries
  resolve_fields end = some empty
  resolve_fields (field k v fs) = do
    value ← resolve v
    rest ← resolve_fields fs
    some (entry k value rest)
