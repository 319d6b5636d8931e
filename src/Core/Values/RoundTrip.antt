-- ===== src/Core/Values/RoundTrip.antt =====
-- What a client gets of a value that a worker sends, of offwork/core/task.py.
use offwork.Base.{
  ◌>>=◌, String, ◌≡◌, refl, false, Option, some, List, [], ◌∷◌, arith, ◌==◌, string_eq,
}
use offwork.Core.Json.{Json, str, dict, Fields, get_field}
use offwork.Core.Values.{
  plain_bytes, byte_array, memory_view, Value, none_value, nan_value, boolean, number, text,
  bytes_like, tuple, named_tuple, sequence, mapping, keyed, enum_member, builtin, instance_of,
  pickled, Values, nothing, more, Entries, empty, entry, Pairs, no_pair, pair, object_sentinel,
  object_info, is_sentinel, to_jsonable, to_fields, to_items, to_pairs, loaded, resolve,
  resolve_items, resolve_fields, resolve_single, as_pairs, get_entry, texts, entries_of,
  decode_kind,
}

-- A client has no classes: it sees a namedtuple as a tuple, an enum member as its value, and an
-- instance as the dict that stands for it.
unfoldable mutual
  pub received : Value → Value
  received none_value = none_value
  received nan_value = nan_value
  received (boolean b) = boolean b
  received (number n) = number n
  received (text s) = text s
  received (bytes_like kind data64) = bytes_like kind data64
  received (tuple vs) = tuple (received_all vs)
  received (named_tuple cls fields vs) = tuple (received_all vs)
  received (sequence vs) = sequence (received_all vs)
  received (mapping es) = mapping (received_entries es)
  received (keyed ps) = keyed (received_pairs ps)
  received (enum_member cls name v) = received v
  received (builtin info) = builtin info
  received (instance_of cls state) =
      mapping (entry object_sentinel (loaded (dict (object_info cls (to_fields state)))) empty)
  received (pickled data64) = pickled data64

  pub received_all : Values → Values
  received_all nothing = nothing
  received_all (more v vs) = more (received v) (received_all vs)

  pub received_entries : Entries → Entries
  received_entries empty = empty
  received_entries (entry k v es) = entry k (received v) (received_entries es)

  pub received_pairs : Pairs → Pairs
  received_pairs no_pair = no_pair
  received_pairs (pair k v ps) = pair (received k) (received v) (received_pairs ps)

-- The only key of a dict is not a sentinel.
abbrev pub IsUnambiguous : Entries → Type 0
IsUnambiguous (entry k v empty) = is_sentinel k ≡ false
IsUnambiguous _ = Unit

abbrev pub IsOtherKind : Fields → Type 0
IsOtherKind info =
    (kind : String) × (get_field "type" info ≡ some (str kind))
    × ((kind == "namedtuple") ≡ false)
    × ((kind == "enum") ≡ false)

-- No dict in the value reads as a sentinel.
unfoldable mutual
  pub IsSendable : Value → Type 0
  IsSendable (tuple vs) = AllSendable vs
  IsSendable (named_tuple cls fields vs) = AllSendable vs
  IsSendable (sequence vs) = AllSendable vs
  IsSendable (mapping es) = IsUnambiguous es × EntriesSendable es
  IsSendable (keyed ps) = PairsSendable ps
  IsSendable (enum_member cls name v) = IsSendable v
  IsSendable (builtin info) = IsOtherKind info
  IsSendable _ = Unit

  pub AllSendable : Values → Type 0
  AllSendable nothing = Unit
  AllSendable (more v vs) = IsSendable v × AllSendable vs

  pub EntriesSendable : Entries → Type 0
  EntriesSendable empty = Unit
  EntriesSendable (entry k v es) = IsSendable v × EntriesSendable es

  pub PairsSendable : Pairs → Type 0
  PairsSendable no_pair = Unit
  PairsSendable (pair k v ps) = IsSendable k × (IsSendable v × PairsSendable ps)

resolve_single-plain :
    (k : String) (v : Json) (r : Option Value)
    → is_sentinel k ≡ false
    → resolve_single k v r ≡ (r >>= (λ v. some (mapping (entry k v empty))))
unfolding resolve_single
resolve_single-plain k v r h = ground arith

-- The list of two-element lists that stands for the items of a dict.
unfoldable pair_lists : Pairs → Values
pair_lists no_pair = nothing
pair_lists (pair k v ps) = more (sequence (more k (more v nothing))) (pair_lists ps)

as_pairs-pair_lists : (ps : Pairs) → as_pairs (pair_lists ps) ≡ some ps
unfolding as_pairs pair_lists
as_pairs-pair_lists no_pair = refl
as_pairs-pair_lists (pair k v ps) = rw (as_pairs-pair_lists ps) refl

text_values : List String → Values
text_values [] = nothing
text_values (s ∷ ss) = more (text s) (text_values ss)

resolve_items-texts : (ss : List String) → resolve_items (texts ss) ≡ some (text_values ss)
unfolding resolve text_values
resolve_items-texts [] = refl
resolve_items-texts (s ∷ ss) = rw (resolve_items-texts ss) refl

decode_kind-other :
    (kind : String) (info : Fields) (entries : Option Entries)
    → (kind == "namedtuple") ≡ false
    → (kind == "enum") ≡ false
    → decode_kind kind info entries ≡ some (builtin info)
decode_kind-other kind info entries not_named not_enum = ground arith

mutual
  unfolding to_jsonable resolve resolve_single received IsSendable get_field get_entry string_eq
      pair_lists

  received_lem : (v : Value) → IsSendable v → resolve (to_jsonable v) ≡ some (received v)
  received_lem none_value h = refl
  received_lem nan_value h = refl
  received_lem (boolean b) h = refl
  received_lem (number n) h = refl
  received_lem (text s) h = refl
  received_lem (bytes_like plain_bytes data64) h = refl
  received_lem (bytes_like byte_array data64) h = refl
  received_lem (bytes_like memory_view data64) h = refl
  received_lem (tuple vs) h = rw (received_all_lem vs h) refl
  received_lem (named_tuple cls fields vs) h =
      rw (resolve_items-texts fields, received_all_lem vs h) refl
  received_lem (sequence vs) h = rw (received_all_lem vs h) refl
  received_lem (mapping es) (alone, h) = received_entries_lem es alone h
  received_lem (keyed ps) h =
      rw (received_pairs_lem ps h, as_pairs-pair_lists (received_pairs ps)) refl
  received_lem (enum_member cls name v) h = rw (received_lem v h) refl
  received_lem (builtin info) (kind, typed, not_named, not_enum) =
      rw typed (decode_kind-other kind info (entries_of (resolve (dict info))) not_named not_enum)
  received_lem (instance_of cls state) h = refl
  received_lem (pickled data64) h = refl

  received_all_lem :
      (vs : Values) → AllSendable vs → resolve_items (to_items vs) ≡ some (received_all vs)
  received_all_lem nothing h = refl
  received_all_lem (more v vs) (h, hs) = rw (received_lem v h, received_all_lem vs hs) refl

  received_fields_lem :
      (es : Entries)
      → EntriesSendable es
      → resolve_fields (to_fields es) ≡ some (received_entries es)
  received_fields_lem empty h = refl
  received_fields_lem (entry k v es) (h, hs) = rw (received_lem v h, received_fields_lem es hs) refl

  received_entries_lem :
      (es : Entries)
      → IsUnambiguous es
      → EntriesSendable es
      → resolve (dict (to_fields es)) ≡ some (mapping (received_entries es))
  received_entries_lem empty alone h = refl
  received_entries_lem (entry k v empty) alone (h, _) =
      rw (resolve_single-plain k (to_jsonable v) (resolve (to_jsonable v)) alone, received_lem v h)
        refl
  received_entries_lem (entry k v (entry j w es)) alone (h, hs) =
      rw (received_lem v h, received_fields_lem (entry j w es) hs) refl

  received_pairs_lem :
      (ps : Pairs)
      → PairsSendable ps
      → resolve_items (to_pairs ps) ≡ some (pair_lists (received_pairs ps))
  received_pairs_lem no_pair h = refl
  received_pairs_lem (pair k v ps) (h, (h', hs)) =
      rw (received_lem k h, received_lem v h', received_pairs_lem ps hs) refl

pub resolve-to_jsonable : (v : Value) → IsSendable v → resolve (to_jsonable v) ≡ some (received v)
resolve-to_jsonable v h = received_lem v h
