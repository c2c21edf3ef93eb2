-- ===== src/Json.antt =====
-- `serde_json::Value`, with the accessors that the source uses. An object keeps one value for a key.
pub mod Laws
use ai_open_router.Prelude.{
  ℕ, String, Bool, true, false, not, ◌&&◌, Option, none, some, List, [], ◌∷◌, ◌==◌, leb, eqb,
  if◌then◌else◌, ◌>>=◌, is_some,
}

-- An `f64` by its IEEE 754 bit pattern.
abbrev pub F64 : Type 0
F64 = ℕ

-- `x != 0.0`: both zeros are equal to it.
unfoldable pub ne_zero : F64 → Bool
ne_zero bits = not (eqb bits 0) && not (eqb bits 0x8000000000000000)

-- `serde_json::Number`: a `u64`, a negative `i64` (`neg_int n` is -(n + 1)) or an `f64`.
pub data Number : Type 0 where
  pos_int neg_int : ℕ → Number
  float : F64 → Number

mutual
  pub data Value : Type 0 where
    null : Value
    boolean : Bool → Value
    number : Number → Value
    string : String → Value
    array : Items → Value
    object : Fields → Value

  pub data Items : Type 0 where
    nil : Items
    cons : Value → Items → Items

  pub data Fields : Type 0 where
    end : Fields
    field : String → Value → Fields → Fields

-- `Map::get`.
unfoldable pub get_field : String → Fields → Option Value
get_field k end = none
get_field k (field j v m) = if j == k then some v else get_field k m

-- `Map::insert`.
unfoldable pub insert_field : String → Value → Fields → Fields
insert_field k v end = field k v end
insert_field k v (field j w m) = if j == k then field k v m else field j w (insert_field k v m)

-- `Map::contains_key`.
unfoldable pub has_field : String → Fields → Bool
unfolding get_field
has_field k m = is_some (get_field k m)

-- `map.entry(k).or_insert_with(…)`, the map that it leaves.
unfoldable pub or_insert : String → Value → Fields → Fields
unfolding has_field insert_field
or_insert k v m = if has_field k m then m else insert_field k v m

-- `Value::as_object`.
abbrev pub as_object : Value → Option Fields
as_object (object m) = some m
as_object _ = none

-- `Value::as_array`.
abbrev pub as_array : Value → Option Items
as_array (array xs) = some xs
as_array _ = none

-- `Value::as_str`.
abbrev pub as_str : Value → Option String
as_str (string s) = some s
as_str _ = none

-- `Value::as_bool`.
abbrev pub as_bool : Value → Option Bool
as_bool (boolean b) = some b
as_bool _ = none

-- `Value::as_u64`: a float or a negative number is none.
abbrev pub as_u64 : Value → Option ℕ
as_u64 (number (Number.pos_int n)) = some n
as_u64 _ = none

-- `Value::as_f64`, compared with 0.0: no integer but 0 becomes a zero.
unfoldable pub is_nonzero_f64 : Value → Bool
unfolding ne_zero
is_nonzero_f64 (number (Number.pos_int n)) = not (eqb n 0)
is_nonzero_f64 (number (Number.neg_int n)) = true
is_nonzero_f64 (number (Number.float bits)) = ne_zero bits
is_nonzero_f64 _ = false

-- `Value::is_null`.
abbrev pub is_null : Value → Bool
is_null null = true
is_null _ = false

-- `Value::get` with a text: none for what is no object.
unfoldable pub get : String → Value → Option Value
unfolding get_field
get k v = as_object v >>= λ m. get_field k m

-- `Value::get(k)`, then an array's elements.
unfoldable pub to_list : Items → List Value
to_list nil = []
to_list (cons v xs) = v ∷ to_list xs

unfoldable pub of_list : List Value → Items
of_list [] = nil
of_list (v ∷ xs) = cons v (of_list xs)
