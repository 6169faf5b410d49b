-- ===== src/Json/Laws.antt =====
-- Python's `==` on JSON values (see Json): what it tells apart and what it does not.
use deep_agent_blueprint.Prelude.{
  ◌≡◌, refl, true, false, Bool, none, some, eq_refl, eq_iff, arith, String,
}
use deep_agent_blueprint.Json.{
  Number, Json, Items, Fields, null, boolean, num, str, arr, obj, nil, cons, end, field, number_eq,
  same_sign, equals_number, equals_str, number_of_bool, is_null, get_field, json_eq, items_eq,
  fields_in,
}

same_sign_refl : (b : Bool) → same_sign b b ≡ true
unfolding same_sign
same_sign_refl true = refl
same_sign_refl false = refl

number_eq_refl : (n : Number) → number_eq n n ≡ true
unfolding number_eq
number_eq_refl n = ground (arith, same_sign_refl n.negative)

-- No object in the value has a key twice: so it is for all that `json.loads` returns.
abbrev mutual
  pub HasUniqueKeys : Json → Type 0
  HasUniqueKeys (arr xs) = ItemsUnique xs
  HasUniqueKeys (obj fs) = FieldsUnique fs
  HasUniqueKeys null = Unit
  HasUniqueKeys (boolean b) = Unit
  HasUniqueKeys (num n) = Unit
  HasUniqueKeys (str s) = Unit

  pub ItemsUnique : Items → Type 0
  ItemsUnique nil = Unit
  ItemsUnique (cons x xs) = HasUniqueKeys x × ItemsUnique xs

  pub FieldsUnique : Fields → Type 0
  FieldsUnique end = Unit
  FieldsUnique (field k v fs) = HasUniqueKeys v × (get_field k fs ≡ none) × FieldsUnique fs

-- `gs` has every field of `fs`, at the same value.
abbrev Includes : Fields → Fields → Type 0
Includes end gs = Unit
Includes (field k v fs) gs = (get_field k gs ≡ some v) × Includes fs gs

-- A key in front changes no other key's value.
Includes-field :
    (k : String) (v : Json) (fs gs : Fields)
    → get_field k fs ≡ none
    → Includes fs gs
    → Includes fs (field k v gs)
Includes-field k v end gs h i = tt
Includes-field k v (field j w fs) gs h (found, i) =
    (ground (arith, eq_iff j k, eq_iff k j), Includes-field k v fs gs (ground arith) i)

Includes-refl : (fs : Fields) → FieldsUnique fs → Includes fs fs
Includes-refl end u = tt
Includes-refl (field k v fs) (_, fresh, u) =
    (rw (eq_refl k), Includes-field k v fs fs fresh (Includes-refl fs u))

mutual
  unfolding json_eq equals_number equals_str number_of_bool is_null

  json_eq_self : (v : Json) → HasUniqueKeys v → json_eq v v ≡ true
  json_eq_self null u = refl
  json_eq_self (boolean true) u = number_eq_refl (number_of_bool true)
  json_eq_self (boolean false) u = number_eq_refl (number_of_bool false)
  json_eq_self (num n) u = number_eq_refl n
  json_eq_self (str s) u = eq_refl s
  json_eq_self (arr xs) u = items_eq_self xs u
  json_eq_self (obj fs) u = ground (arith, fields_in_self fs u fs (Includes-refl fs u))

  items_eq_self : (xs : Items) → ItemsUnique xs → items_eq xs xs ≡ true
  items_eq_self nil u = refl
  items_eq_self (cons x xs) (u, us) = ground (arith, json_eq_self x u, items_eq_self xs us)

  fields_in_self :
      (fs : Fields) → FieldsUnique fs → (gs : Fields) → Includes fs gs → fields_in fs gs ≡ true
  fields_in_self end u gs i = refl
  fields_in_self (field k v fs) (uv, fresh, u) gs (found, i) =
      rw found (ground (arith, json_eq_self v uv, fields_in_self fs u gs i))

pub json_eq_refl : (v : Json) → HasUniqueKeys v → json_eq v v ≡ true
json_eq_refl v u = json_eq_self v u
