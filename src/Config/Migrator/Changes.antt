-- ===== src/Config/Migrator/Changes.antt =====
-- `get_mut` with `as_object_mut` or `as_array_mut`: a change in place of what a key holds.
use ai_open_router.Prelude.{≢→==, String, ◌≡◌, ◌≢◌, refl, none, some, List, Option-cases, inl, inr}
use ai_open_router.Json.{
  Value, Fields, object, array, get_field, insert_field, Items, to_list, of_list,
}
use ai_open_router.Json.Laws.{get_field-insert_field, get_field-insert_field_self}

abbrev change_object : String → (Fields → Fields) → Fields → Value → Fields
change_object key f m (object inner) = insert_field key (object (f inner)) m
change_object key f m _ = m

unfoldable pub modify_object : String → (Fields → Fields) → Fields → Fields
unfolding get_field insert_field
modify_object key f m = elim (get_field key m) [ none ↦ m | some v ↦ change_object key f m v ]

abbrev change_array : String → (List Value → List Value) → Fields → Value → Fields
change_array key f m (array xs) = insert_field key (array (of_list (f (to_list xs)))) m
change_array key f m _ = m

unfoldable pub modify_array : String → (List Value → List Value) → Fields → Fields
unfolding get_field insert_field of_list to_list
modify_array key f m = elim (get_field key m) [ none ↦ m | some v ↦ change_array key f m v ]

-- The same in a value, when it is an object.
unfoldable pub modify_array_of : String → (List Value → List Value) → Value → Value
unfolding modify_array
modify_array_of key f (object m) = object (modify_array key f m)
modify_array_of key f v = v

pub get_field-insert_field_other :
    (key other : String) (v : Value) (m : Fields)
    → key ≢ other
    → get_field other (insert_field key v m) ≡ get_field other m
get_field-insert_field_other key other v m apart =
    rw (get_field-insert_field key other v m, ≢→== key other apart)

change_object_other :
    (key other : String) (f : Fields → Fields) (m : Fields) (v : Value)
    → key ≢ other
    → get_field other (change_object key f m v) ≡ get_field other m
change_object_other key other f m (object inner) apart =
    get_field-insert_field_other key other (object (f inner)) m apart
change_object_other key other f m (Value.null) apart = refl
change_object_other key other f m (Value.boolean b) apart = refl
change_object_other key other f m (Value.number n) apart = refl
change_object_other key other f m (Value.string t) apart = refl
change_object_other key other f m (array xs) apart = refl

change_array_other :
    (key other : String) (f : List Value → List Value) (m : Fields) (v : Value)
    → key ≢ other
    → get_field other (change_array key f m v) ≡ get_field other m
change_array_other key other f m (array xs) apart =
    get_field-insert_field_other key other (array (of_list (f (to_list xs)))) m apart
change_array_other key other f m (Value.null) apart = refl
change_array_other key other f m (Value.boolean b) apart = refl
change_array_other key other f m (Value.number n) apart = refl
change_array_other key other f m (Value.string t) apart = refl
change_array_other key other f m (object inner) apart = refl

pub get_field-modify_object_other :
    (key other : String) (f : Fields → Fields) (m : Fields)
    → key ≢ other
    → get_field other (modify_object key f m) ≡ get_field other m
unfolding modify_object
get_field-modify_object_other key other f m apart = elim (Option-cases (get_field key m)) [
  | inl missing ↦ rw (modify_object, missing)
  | inr (v, found) ↦ rw (modify_object, found) (change_object_other key other f m v apart)
]

pub get_field-modify_object :
    (key : String) (f : Fields → Fields) (m inner : Fields)
    → get_field key m ≡ some (object inner)
    → get_field key (modify_object key f m) ≡ some (object (f inner))
unfolding modify_object
get_field-modify_object key f m inner found =
    rw (modify_object, found) (get_field-insert_field_self key (object (f inner)) m)

pub get_field-modify_array_other :
    (key other : String) (f : List Value → List Value) (m : Fields)
    → key ≢ other
    → get_field other (modify_array key f m) ≡ get_field other m
unfolding modify_array
get_field-modify_array_other key other f m apart = elim (Option-cases (get_field key m)) [
  | inl missing ↦ rw (modify_array, missing)
  | inr (v, found) ↦ rw (modify_array, found) (change_array_other key other f m v apart)
]

pub get_field-modify_array :
    (key : String) (f : List Value → List Value) (m : Fields) (xs : Items)
    → get_field key m ≡ some (array xs)
    → get_field key (modify_array key f m) ≡ some (array (of_list (f (to_list xs))))
unfolding modify_array
get_field-modify_array key f m xs found =
    rw (modify_array, found) (get_field-insert_field_self key (array (of_list (f (to_list xs)))) m)
