-- ===== src/Dict.antt =====
-- The maps of the source with text keys: `HashMap<String, V>` and, with `Unit` for values,
-- `HashSet<String>`. The source never depends on the order of the entries.
use ai_open_router.Prelude.{
  String, ◌≡◌, refl, Bool, Option, none, some, List, [], ◌∷◌, arith, ◌==◌, eq_iff, eq_refl,
  if◌then◌else◌, is_some, ◌or_else◌,
}

abbrev pub Dict {ℓ} : Type ℓ → Type ℓ
Dict V = List (String × V)

abbrev pub HashSet : Type 0
HashSet = Dict (Unit {0})

module _ {ℓ} {V : Type ℓ} where
  -- `HashMap::get`.
  unfoldable pub lookup : String → Dict V → Option V
  lookup key [] = none
  lookup key ((name, value) ∷ rest) = if name == key then some value else lookup key rest

  -- `HashMap::insert`: the value of a key that is there is replaced.
  unfoldable pub insert : String → V → Dict V → Dict V
  insert key new [] = (key, new) ∷ []
  insert key new ((name, old) ∷ rest) =
      if name == key then (key, new) ∷ rest else (name, old) ∷ insert key new rest

  -- `HashMap::remove`.
  unfoldable pub remove : String → Dict V → Dict V
  remove key [] = []
  remove key ((name, value) ∷ rest) =
      if name == key then remove key rest else (name, value) ∷ remove key rest

  -- `HashMap::contains_key`, `HashSet::contains`.
  unfoldable pub contains_key : String → Dict V → Bool
  unfolding lookup
  contains_key key entries = is_some (lookup key entries)

  -- `HashMap::extend`: the entries of the second map win. Its keys are distinct, so their order
  -- does not matter.
  unfoldable pub extend : Dict V → Dict V → Dict V
  unfolding insert
  extend entries [] = entries
  extend entries ((name, value) ∷ more) = insert name value (extend entries more)

  pub lookup-insert :
      (key sought : String) (new : V) (entries : Dict V)
      → lookup sought (insert key new entries)
        ≡ (if key == sought then some new else lookup sought entries)
  unfolding lookup insert
  lookup-insert key sought new [] = refl
  lookup-insert key sought new ((name, old) ∷ rest) = ground (
    arith,
    lookup-insert key sought new rest,
    eq_iff key sought,
    eq_iff name key,
    eq_iff name sought,
  )

  pub lookup-insert_self :
      (key : String) (new : V) (entries : Dict V) → lookup key (insert key new entries) ≡ some new
  lookup-insert_self key new entries = rw (lookup-insert, eq_refl)

  pub lookup-remove :
      (key sought : String) (entries : Dict V)
      → lookup sought (remove key entries) ≡ (if key == sought then none else lookup sought entries)
  unfolding lookup remove
  lookup-remove key sought [] = ground arith
  lookup-remove key sought ((name, value) ∷ rest) =
      ground (
        arith,
        lookup-remove key sought rest,
        eq_iff key sought,
        eq_iff name key,
        eq_iff name sought,
      )

  pub lookup-extend :
      (sought : String) (entries more : Dict V)
      → lookup sought (extend entries more) ≡ (lookup sought more or_else lookup sought entries)
  unfolding extend lookup
  lookup-extend sought entries [] = refl
  lookup-extend sought entries ((name, value) ∷ more) = ground (
    arith,
    lookup-extend sought entries more,
    lookup-insert name sought value (extend entries more),
  )

pub ruleset dict_laws = (lookup-insert, lookup-remove)
