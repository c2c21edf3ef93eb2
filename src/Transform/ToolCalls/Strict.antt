-- ===== src/Transform/ToolCalls/Strict.antt =====
-- The tool calls that `parse_strict_text_tool_call` of transformer/convert/common.rs reads.
use ai_open_router.Prelude.{
  String, ◌≡◌, refl, Option, none, some, List, [], ◌∷◌, Occurs, inl, inr, arith, Option-cases,
  Bool-cases, ◌>>=◌, ◌or_else◌, leb,
}
use Prim.Native.String.{[], ◌∷◌, ◌++◌, len}
use ai_open_router.Text.{strip_prefix, trim_start_by, is_whitespace}
use ai_open_router.Json.{Value, Fields, object}
use ai_open_router.Transform.ToolCalls.{
  ParsedTextToolCall, insert_by_len, longest_first, match_tool, closings, keep_object, first_object,
  parse_marked, find_marked,
}

-- A call of a tool that is among the names, with an object for its arguments.
pub record IsCall (names : List String) (call : ParsedTextToolCall) : Type 0 where
  pub named : Occurs call.name names
  pub fields : Fields
  pub arguments_are : call.arguments ≡ object fields

-- What a search may find.
abbrev pub Finds : List String → Option ParsedTextToolCall → Type 0
Finds names none = Unit
Finds names (some call) = IsCall names call

pub or_else-Finds :
    (names : List String) (a b : Option ParsedTextToolCall)
    → Finds names a
    → Finds names b
    → Finds names (a or_else b)
or_else-Finds names none b h k = k
or_else-Finds names (some call) b h k = h

insert_by_len-Occurs :
    (a name : String) (names : List String)
    → Occurs a (insert_by_len name names)
    → Occurs a (name ∷ names)
insert_by_len-Occurs a name [] h = h
insert_by_len-Occurs a name (other ∷ rest) h = elim (Bool-cases (leb (len other) (len name))) [
  | inl e ↦ ground (arith, e)
  | inr e ↦ ground (arith, insert_by_len-Occurs a name rest, e)
]

pub longest_first-Occurs :
    (a : String) (names : List String) → Occurs a (longest_first names) → Occurs a names
unfolding longest_first
longest_first-Occurs a [] h = h
longest_first-Occurs a (name ∷ rest) h = elim (insert_by_len-Occurs a name (longest_first rest) h) [
  | inl e ↦ inl e
  | inr k ↦ inr (longest_first-Occurs a rest k)
]

-- A tool that may be matched, with the text after it.
abbrev Matches : List String → Option (String × String) → Type 0
Matches names none = Unit
Matches names (some (name, args)) = Occurs name names

skip-Matches :
    (first : String) (names : List String) (m : Option (String × String))
    → Matches names m
    → Matches (first ∷ names) m
skip-Matches first names none h = tt
skip-Matches first names (some (name, args)) h = inr h

match_tool-Matches : (names : List String) (inner : String) → Matches names (match_tool names inner)
unfolding match_tool
match_tool-Matches [] inner = tt
match_tool-Matches (first ∷ rest) inner = elim (Option-cases (strip_prefix (first ++ "(") inner)) [
  | inl e ↦
      rw (match_tool, e)
        (skip-Matches first rest (match_tool rest inner) (match_tool-Matches rest inner))
  | inr (found, e) ↦ rw (match_tool, e) (inl refl)
]

-- Arguments that may be found.
abbrev pub IsObject : Option Value → Type 0
IsObject none = Unit
IsObject (some v) = (fields : Fields) × (v ≡ object fields)

keep_object-IsObject : (parsed : Option Value) → IsObject (parsed >>= λ args. keep_object args)
keep_object-IsObject none = tt
keep_object-IsObject (some (object fields)) = (fields, refl)
keep_object-IsObject (some _) = tt

or_else-IsObject : (a b : Option Value) → IsObject a → IsObject b → IsObject (a or_else b)
or_else-IsObject none b h k = k
or_else-IsObject (some v) b h k = h

pub call-Finds :
    (names : List String) (name : String) (found : Option Value)
    → Occurs name names
    → IsObject found
    → Finds names (found >>= λ args. some (record { name = name; arguments = args }))
call-Finds names name none h k = tt
call-Finds names name (some args) h k = record { named = h; fields = k.0; arguments_are = k.1 }

matched-Finds :
    (names : List String) (m : Option (String × String)) (read : String → Option Value)
    → Matches names m
    → ((s : String) → IsObject (read s))
    → Finds names (
        m >>= λ matched.
        read matched.1 >>= λ args. some (record { name = matched.0; arguments = args }))
matched-Finds names none read h k = tt
matched-Finds names (some (name, args)) read h k = call-Finds names name (read args) h (k args)

module _ (from_str : String → Option Value) where
  first_object-IsObject : (texts : List String) → IsObject (first_object from_str texts)
  unfolding first_object
  first_object-IsObject [] = tt
  first_object-IsObject (args_str ∷ rest) =
      or_else-IsObject (from_str args_str >>= λ args. keep_object args) (first_object from_str rest)
        (keep_object-IsObject (from_str args_str)) (first_object-IsObject rest)

  parse_marked-Finds :
      (names : List String) (inner : String) → Finds names (parse_marked from_str names inner)
  unfolding parse_marked
  parse_marked-Finds names inner =
      matched-Finds names (match_tool names (trim_start_by is_whitespace inner))
        (λ s. first_object from_str (closings s))
        (match_tool-Matches names (trim_start_by is_whitespace inner))
        λ s. first_object-IsObject (closings s)

  marked-Finds :
      (names : List String) (stripped : Option String)
      → Finds names (stripped >>= λ inner. parse_marked from_str names inner)
  marked-Finds names none = tt
  marked-Finds names (some inner) = parse_marked-Finds names inner

  pub find_marked-Finds :
      (names : List String) (text : String) → Finds names (find_marked from_str names text)
  unfolding find_marked
  find_marked-Finds names [] = tt
  find_marked-Finds names (c ∷ s) =
      or_else-Finds names _ (find_marked from_str names s)
        (marked-Finds names (strip_prefix "[Tool Call:" (c ∷ s))) (find_marked-Finds names s)
