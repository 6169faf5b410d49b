-- ===== src/Json.antt =====
-- The values of `dict[str, Any]` (app/models/schemas.py): what `json.loads` returns, and Python's
-- `==` on them, by which app/api/execute.py and app/adapters/jira.py compare.
-- A number is a sign, a mantissa and a power of two below it, which holds every `int` and every
-- finite `float`; infinities and NaN are left out.
pub mod Laws
use deep_agent_blueprint.Prelude.{
  ℕ, suc, ◌*◌, ◌^◌, String, Bool, true, false, Option, none, some, ◌&&◌, ◌||◌, not, ◌==◌, eqb, Dict,
  lookup, if◌then◌else◌, [], ◌∷◌, List,
}

pub record Number : Type 0 where
  pub negative : Bool
  pub mantissa : ℕ
  pub scale : ℕ

mutual
  pub data Json : Type 0 where
    null : Json
    boolean : Bool → Json
    num : Number → Json
    str : String → Json
    arr : Items → Json
    obj : Fields → Json

  pub data Items : Type 0 where
    nil : Items
    cons : Json → Items → Items

  pub data Fields : Type 0 where
    end : Fields
    field : String → Json → Fields → Fields

abbrev pub Object : Type 0
Object = Dict Json

abbrev pub nat : ℕ → Json
nat n = num (record { negative = false; mantissa = n; scale = 0 })

same_sign : Bool → Bool → Bool
same_sign true b = b
same_sign false b = not b

-- equal values: a sign does not count at zero
number_eq : Number → Number → Bool
unfolding same_sign
number_eq a b =
    eqb (a.mantissa * 2 ^ b.scale) (b.mantissa * 2 ^ a.scale)
    && (same_sign a.negative b.negative || eqb a.mantissa 0)

-- `bool` is a subclass of `int`: `True == 1`
number_of_bool : Bool → Number
number_of_bool true = record { negative = false; mantissa = 1; scale = 0 }
number_of_bool false = record { negative = false; mantissa = 0; scale = 0 }

equals_number : Number → Json → Bool
unfolding number_eq number_of_bool
equals_number n (boolean b) = number_eq n (number_of_bool b)
equals_number n (num m) = number_eq n m
equals_number n _ = false

equals_str : String → Json → Bool
equals_str s (str t) = s == t
equals_str s _ = false

pub is_null : Json → Bool
is_null null = true
is_null _ = false

abbrev pub as_items : Json → Option Items
as_items (arr xs) = some xs
as_items _ = none

abbrev pub as_fields : Json → Option Fields
as_fields (obj fs) = some fs
as_fields _ = none

abbrev pub get_field : String → Fields → Option Json
get_field k end = none
get_field k (field j v fs) = if j == k then some v else get_field k fs

abbrev pub count_fields : Fields → ℕ
count_fields end = 0
count_fields (field k v fs) = suc (count_fields fs)

-- the fields as a dictionary
pub dict_of : Fields → Object
dict_of end = []
dict_of (field k v fs) = (k, v) ∷ dict_of fs

-- Python's `==`: lists in order, dictionaries by key
unfoldable mutual
  unfolding equals_number equals_str number_of_bool is_null

  pub json_eq : Json → Json → Bool
  json_eq null w = is_null w
  json_eq (boolean b) w = equals_number (number_of_bool b) w
  json_eq (num n) w = equals_number n w
  json_eq (str s) w = equals_str s w
  json_eq (arr xs) w = elim (as_items w) [ none ↦ false | some ys ↦ items_eq xs ys ]
  json_eq (obj fs) w = elim (as_fields w) [
    | none ↦ false
    | some gs ↦ eqb (count_fields fs) (count_fields gs) && fields_in fs gs
  ]

  pub items_eq : Items → Items → Bool
  items_eq nil nil = true
  items_eq nil (cons y ys) = false
  items_eq (cons x xs) nil = false
  items_eq (cons x xs) (cons y ys) = json_eq x y && items_eq xs ys

  pub fields_in : Fields → Fields → Bool
  fields_in end gs = true
  fields_in (field k v fs) gs =
      elim (get_field k gs) [ none ↦ false | some w ↦ json_eq v w ] && fields_in fs gs

-- `d.get(k)`, which is `None` both for an absent key and for a key that holds `None`
abbrev pub get_or_null : String → Object → Json
get_or_null k d = elim (lookup k d) [ none ↦ null | some v ↦ v ]

-- Python's `bool(v)`
unfoldable pub truthy : Json → Bool
truthy null = false
truthy (boolean b) = b
truthy (num n) = not (eqb n.mantissa 0)
truthy (str s) = not (s == "")
truthy (arr nil) = false
truthy (arr _) = true
truthy (obj end) = false
truthy (obj _) = true
