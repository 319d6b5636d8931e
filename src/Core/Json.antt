-- ===== src/Core/Json.antt =====
-- JSON values, as `json.loads` returns them and `json.dumps` takes them. Numbers are natural: a count,
-- or a time in milliseconds. `nan` is the float that the literal NaN, which Python reads, stands for.
use offwork.Base.{
  ℕ, String, ◌≡◌, refl, Bool, true, false, not, ◌||◌, Option, none, some, arith, ◌==◌, string_eq,
  ◌=ℕ◌, if◌then◌else◌,
}

mutual
  pub data Json : Type 0 where
    null nan : Json
    bool : Bool → Json
    num : ℕ → Json
    str : String → Json
    list : Items → Json
    dict : Fields → Json

  pub data Items : Type 0 where
    nil : Items
    cons : Json → Items → Items

  pub data Fields : Type 0 where
    end : Fields
    field : String → Json → Fields → Fields

-- `data.get(k)` of a dict; `none` is a missing key.
unfoldable pub get_field : String → Fields → Option Json
get_field k end = none
get_field k (field j v fs) = if k == j then some v else get_field k fs

-- `d[k] = v` of a dict.
unfoldable pub set_field : String → Json → Fields → Fields
set_field k v end = field k v end
set_field k v (field j w fs) = if k == j then field k v fs else field j w (set_field k v fs)

-- `if o is not None: d[k] = o`, in front of the fields that follow.
unfoldable pub opt_field : String → Option Json → Fields → Fields
opt_field k none fs = fs
opt_field k (some v) fs = field k v fs

-- `{k: v for k, v in d.items() if k not in (…)}`, for two keys.
unfoldable pub without_two : String → String → Fields → Fields
without_two a b end = end
without_two a b (field j v fs) =
    let rest = without_two a b fs in if j == a || j == b then rest else field j v rest

abbrev pub first_of_two : Option Json → Option Json → Option Json
first_of_two none o = o
first_of_two (some v) o = some v

pub get-field :
    (k j : String) (v : Json) (fs : Fields)
    → get_field k (field j v fs) ≡ (if k == j then some v else get_field k fs)
unfolding get_field
get-field k j v fs = refl

pub get-opt_field :
    (k j : String) (o : Option Json) (fs : Fields)
    → get_field k (opt_field j o fs)
      ≡ (if k == j then first_of_two o (get_field k fs) else get_field k fs)
unfolding get_field opt_field
get-opt_field k j none fs = ground arith
get-opt_field k j (some v) fs = refl

-- `bool(v)`
unfoldable pub truthy : Json → Bool
truthy null = false
truthy nan = true
truthy (bool b) = b
truthy (num n) = not (n =ℕ 0)
truthy (str s) = not (s == "")
truthy (list nil) = false
truthy (list (cons _ _)) = true
truthy (dict end) = false
truthy (dict (field _ _ _)) = true

pub get-set_field :
    (k j : String) (v : Json) (fs : Fields)
    → get_field k (set_field j v fs) ≡ (if k == j then some v else get_field k fs)
unfolding get_field set_field
get-set_field k j v end = refl
get-set_field k j v (field i w fs) = ground (arith, get-set_field k j v fs)

pub get-without_two :
    (k a b : String) (fs : Fields)
    → get_field k (without_two a b fs) ≡ (if k == a || k == b then none else get_field k fs)
unfolding get_field without_two
get-without_two k a b end = ground arith
get-without_two k a b (field i w fs) = ground (arith, get-without_two k a b fs)

pub get-end : (k : String) → get_field k end ≡ none
unfolding get_field
get-end k = refl

pub first_of_two-none : (o : Option Json) → first_of_two o none ≡ o
first_of_two-none none = refl
first_of_two-none (some v) = refl

pub ruleset field_laws = (get-field, get-set_field, get-opt_field, get-end, first_of_two-none)
