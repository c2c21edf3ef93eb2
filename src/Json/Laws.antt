-- ===== src/Json/Laws.antt =====
-- What is read after a write to an object.
use ai_open_router.Prelude.{
  String, ◌≡◌, refl, some, ◌∷◌, [], List, arith, ◌==◌, eq_iff, eq_refl, if◌then◌else◌, ◌or_else◌,
  ap,
}
use ai_open_router.Json.{
  Value, Fields, end, field, get_field, insert_field, has_field, or_insert, to_list, of_list,
}

pub get_field-insert_field :
    (k j : String) (v : Value) (m : Fields)
    → get_field j (insert_field k v m) ≡ (if k == j then some v else get_field j m)
unfolding get_field insert_field
get_field-insert_field k j v end = refl
get_field-insert_field k j v (field i w m) =
    ground (arith, eq_iff k j, eq_iff i k, eq_iff i j, get_field-insert_field k j v m)

pub get_field-insert_field_self :
    (k : String) (v : Value) (m : Fields) → get_field k (insert_field k v m) ≡ some v
get_field-insert_field_self k v m = rw (get_field-insert_field, eq_refl)

pub get_field-or_insert :
    (k j : String) (v : Value) (m : Fields)
    → get_field j (or_insert k v m)
      ≡ (if k == j then (get_field j m or_else some v) else get_field j m)
unfolding or_insert has_field
get_field-or_insert k j v m = ground (arith, eq_iff k j, get_field-insert_field k j v m)

pub to_list-of_list : (xs : List Value) → to_list (of_list xs) ≡ xs
unfolding to_list of_list
to_list-of_list [] = refl
to_list-of_list (v ∷ xs) = ap (◌∷◌ v) (to_list-of_list xs)
