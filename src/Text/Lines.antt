-- ===== src/Text/Lines.antt =====
-- `str::lines`.
use Prim.Native.Char.{code}
use Prim.Native.String.{[], ◌∷◌}
use ai_open_router.Prelude.{String, List, [], ◌∷◌, map, eqb, if◌then◌else◌}
use ai_open_router.Text.Trim.{is_empty}
use ai_open_router.Text.Search.{split_on}

-- `if line.ends_with('\r') { line.pop(); }`
unfoldable pub strip_carriage_return : String → String
strip_carriage_return [] = []
strip_carriage_return (c ∷ []) = if eqb (code c) 13 then [] else c ∷ []
strip_carriage_return (c ∷ (d ∷ s)) = c ∷ strip_carriage_return (d ∷ s)

abbrev drop_last_empty : List String → List String
drop_last_empty [] = []
drop_last_empty (part ∷ []) = if is_empty part then [] else part ∷ []
drop_last_empty (part ∷ next ∷ parts) = part ∷ drop_last_empty (next ∷ parts)

-- `str::lines`.
unfoldable pub lines : String → List String
unfolding split_on strip_carriage_return
lines s = map strip_carriage_return (drop_last_empty (split_on 10 s))
