-- ===== src/Transform/ToolCalls/Laws.antt =====
-- The text tool calls of transformer/convert/common.rs.
use ai_open_router.Prelude.{
  String, ◌≡◌, refl, Option, none, some, List, [], ◌∷◌, Occurs, inl, inr, arith, Bool-cases, ◌>>=◌,
  subst, true, ◌==◌, sym, eq_iff,
}
use Prim.Native.String.{[], ◌∷◌}
use ai_open_router.Text.{eq_ignore_ascii_case}
use ai_open_router.Dict.{HashSet, contains_key, lookup}
use ai_open_router.Json.{Value, as_object, get_field, as_array, to_list}
use ai_open_router.Transform.ToolCalls.{
  ParsedTextToolCall, longest_first, find_marked, find_ignoring_case, resolve_allowed_tool_name,
  normalize_bash_command_array_arguments, bash_arguments, find_command,
  parse_text_tool_call_fallback, names_of, find_json_object_end, parse_strict_text_tool_call,
  parse_command_array_text_tool_call, all_texts, command_text, bash_arguments,
}
use ai_open_router.Transform.ToolCalls.Strict.{
  IsCall, Finds, or_else-Finds, longest_first-Occurs, IsObject, call-Finds, find_marked-Finds,
}

sorted-Finds :
    (names : List String) (found : Option ParsedTextToolCall)
    → Finds (longest_first names) found
    → Finds names found
sorted-Finds names none h = tt
sorted-Finds names (some call) h = record {
  named = longest_first-Occurs call.name names h.named;
  fields = h.fields;
  arguments_are = h.arguments_are;
}

listed-Occurs :
    (name : String) (allowed : HashSet)
    → contains_key name allowed ≡ true
    → Occurs name (names_of allowed)
unfolding contains_key lookup
listed-Occurs name [] h = ground arith
listed-Occurs name ((other, u) ∷ rest) h = elim (Bool-cases (other == name)) [
  | inl e ↦ inl (sym ((eq_iff other name).0 e))
  | inr e ↦ inr (listed-Occurs name rest (rw (contains_key, lookup, e) at h))
]

-- A name that may be chosen.
abbrev Chooses : List String → Option String → Type 0
Chooses names none = Unit
Chooses names (some name) = Occurs name names

skip-Chooses :
    (first : String) (names : List String) (found : Option String)
    → Chooses names found
    → Chooses (first ∷ names) found
skip-Chooses first names none h = tt
skip-Chooses first names (some name) h = inr h

find_ignoring_case-Chooses :
    (preferred : String) (names : List String) → Chooses names (find_ignoring_case preferred names)
find_ignoring_case-Chooses preferred [] = tt
find_ignoring_case-Chooses preferred (name ∷ rest) =
    elim (Bool-cases (eq_ignore_ascii_case name preferred)) [
      | inl e ↦ rw e (inl refl)
      | inr e ↦ rw e (
          skip-Chooses name rest (find_ignoring_case preferred rest)
            (find_ignoring_case-Chooses preferred rest))
    ]

resolve_allowed_tool_name-Chooses :
    (allowed : HashSet) (preferred : String)
    → Chooses (names_of allowed) (resolve_allowed_tool_name allowed preferred)
unfolding resolve_allowed_tool_name
resolve_allowed_tool_name-Chooses allowed preferred =
    elim (Bool-cases (contains_key preferred allowed)) [
      | inl e ↦ rw (resolve_allowed_tool_name, e) (listed-Occurs preferred allowed e)
      | inr e ↦
          rw (resolve_allowed_tool_name, e)
            (find_ignoring_case-Chooses preferred (names_of allowed))
    ]

then-IsObject {ℓ} :
    {A : Type ℓ} (m : Option A) (f : A → Option Value)
    → ((a : A) → IsObject (f a))
    → IsObject (m >>= λ a. f a)
then-IsObject none f h = tt
then-IsObject (some a) f h = h a

normalize-IsObject : (value : Value) → IsObject (normalize_bash_command_array_arguments value)
unfolding normalize_bash_command_array_arguments
normalize-IsObject value = then-IsObject (as_object value) _ λ obj.
    then-IsObject (get_field "command" obj) _ λ command. then-IsObject (as_array command) _ λ items.
      then-IsObject (all_texts (to_list items)) _ λ argv.
        then-IsObject (command_text argv) (λ text. some (bash_arguments obj text)) λ text. (_, refl)

then-Finds {ℓ} :
    {A : Type ℓ} (names : List String) (m : Option A) (f : A → Option ParsedTextToolCall)
    → ((a : A) → Finds names (f a))
    → Finds names (m >>= λ a. f a)
then-Finds names none f h = tt
then-Finds names (some a) f h = h a

module _ (from_str : String → Option Value) (names : List String) (tool_name : String) where
  find_command-Finds :
      (text : String) → Occurs tool_name names → Finds names (find_command from_str tool_name text)
  unfolding find_command
  find_command-Finds [] m = tt
  find_command-Finds (c ∷ s) m =
      or_else-Finds names _ (find_command from_str tool_name s)
        (then-Finds names (find_json_object_end (c ∷ s)) _ λ found.
          then-Finds names (from_str found) _ λ value.
            call-Finds names tool_name (normalize_bash_command_array_arguments value) m
              (normalize-IsObject value))
        (find_command-Finds s m)

module _ (from_str : String → Option Value) where
  chosen-Finds :
      (names : List String) (text : String) (chosen : Option String)
      → Chooses names chosen
      → Finds names (chosen >>= λ tool_name. find_command from_str tool_name text)
  chosen-Finds names text none h = tt
  chosen-Finds names text (some tool_name) h = find_command-Finds from_str names tool_name text h

  fallback-Finds :
      (text : String) (allowed : HashSet)
      → Finds (names_of allowed) (parse_text_tool_call_fallback from_str text allowed)
  unfolding parse_text_tool_call_fallback parse_strict_text_tool_call
      parse_command_array_text_tool_call
  fallback-Finds text allowed =
      let names = names_of allowed in
      or_else-Finds names (parse_strict_text_tool_call from_str text allowed) _
        (sorted-Finds names (find_marked from_str (longest_first names) text)
          (find_marked-Finds from_str (longest_first names) text))
        (chosen-Finds names text (resolve_allowed_tool_name allowed "Bash")
          (resolve_allowed_tool_name-Chooses allowed "Bash"))

  -- A tool call that is read from a text calls one of the allowed tools, with an object for its
  -- arguments.
  pub parse_text_tool_call_fallback-IsCall :
      (text : String) (allowed : HashSet) (call : ParsedTextToolCall)
      → parse_text_tool_call_fallback from_str text allowed ≡ some call
      → IsCall (names_of allowed) call
  parse_text_tool_call_fallback-IsCall text allowed call h =
      subst (Finds (names_of allowed)) h (fallback-Finds text allowed)
