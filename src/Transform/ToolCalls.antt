-- ===== src/Transform/ToolCalls.antt =====
-- transformer/convert/common.rs: the tool calls that a model writes as text.
pub mod Strict
pub mod Laws
use Prim.Native.Char.{Char, code}
use Prim.Native.String.{[], ◌∷◌, ◌++◌, len}
use ai_open_router.Prelude.{
  ℕ, zero, suc, String, ◌+◌, ◌-◌, Bool, true, false, not, ◌&&◌, ◌||◌, Option, none, some, List, [],
  ◌∷◌, ◌==◌, eqb, leb, if◌then◌else◌, ◌>>=◌, ◌or_else◌, map, is_nil,
}
use ai_open_router.Text.{
  is_whitespace, is_empty, trim, trim_start_by, starts_with, strip_prefix, eq_ignore_ascii_case,
}
use ai_open_router.Dict.{HashSet, contains_key}
use ai_open_router.Json.{
  Value, Fields, number, string, object, end, pos_int, neg_int, as_object, as_array, as_str,
  get_field, insert_field, to_list,
}
use ai_open_router.Transform.Common.{join}

pub record ParsedTextToolCall : Type 0 where
  pub name : String
  pub arguments : Value

abbrev pub names_of : HashSet → List String
names_of [] = []
names_of ((name, u) ∷ rest) = name ∷ names_of rest

abbrev pub insert_by_len : String → List String → List String
insert_by_len name [] = name ∷ []
insert_by_len name (other ∷ rest) =
    if leb (len other) (len name) then name ∷ other ∷ rest else other ∷ insert_by_len name rest

-- `sort_by_key(|name| Reverse(name.len()))`.
unfoldable pub longest_first : List String → List String
longest_first [] = []
longest_first (name ∷ rest) = insert_by_len name (longest_first rest)

-- The first name that a parenthesis follows in the text, with the text after it.
unfoldable pub match_tool : List String → String → Option (String × String)
unfolding strip_prefix
match_tool [] inner = none
match_tool (tool_name ∷ rest) inner = elim (strip_prefix (tool_name ++ "(") inner) [
  | some args ↦ some (tool_name, args)
  | none ↦ match_tool rest inner
]

-- The texts in front of each `)]`, the shortest first.
unfoldable pub closings : String → List String
unfolding starts_with
closings [] = []
closings (c ∷ s) =
    let rest = map (λ args. c ∷ args) (closings s) in
    if starts_with ")]" (c ∷ s) then "" ∷ rest else rest

abbrev keep_object : Value → Option Value
keep_object (object m) = some (object m)
keep_object _ = none

module _ (from_str : String → Option Value) where
  -- The first of the texts that is an object.
  unfoldable pub first_object : List String → Option Value
  first_object [] = none
  first_object (args_str ∷ rest) =
      let later = first_object rest in
      (from_str args_str >>= λ args. keep_object args) or_else later

  -- What follows a marker.
  unfoldable pub parse_marked : List String → String → Option ParsedTextToolCall
  unfolding match_tool closings first_object trim_start_by is_whitespace
  parse_marked tool_names inner =
      match_tool tool_names (trim_start_by is_whitespace inner) >>= λ matched.
      first_object (closings matched.1) >>= λ args.
      some (record { name = matched.0; arguments = args })

  -- The search for the marker, from every place on: two markers cannot overlap.
  unfoldable pub find_marked : List String → String → Option ParsedTextToolCall
  unfolding parse_marked strip_prefix
  find_marked tool_names [] = none
  find_marked tool_names (c ∷ s) =
      let here = strip_prefix "[Tool Call:" (c ∷ s) >>= λ inner. parse_marked tool_names inner in
      let later = find_marked tool_names s in here or_else later

  unfoldable pub parse_strict_text_tool_call : String → HashSet → Option ParsedTextToolCall
  unfolding find_marked longest_first
  parse_strict_text_tool_call text allowed_tool_names =
      find_marked (longest_first (names_of allowed_tool_names)) text

abbrev find_ignoring_case : String → List String → Option String
find_ignoring_case preferred [] = none
find_ignoring_case preferred (name ∷ rest) =
    if eq_ignore_ascii_case name preferred then some name else find_ignoring_case preferred rest

unfoldable pub resolve_allowed_tool_name : HashSet → String → Option String
unfolding contains_key eq_ignore_ascii_case
resolve_allowed_tool_name allowed_tool_names preferred =
    if contains_key preferred allowed_tool_names
    then some preferred
    else find_ignoring_case preferred (names_of allowed_tool_names)

-- The variables of the loop of `find_json_object_end`.
pub record Scan : Type 0 where
  pub depth : ℕ
  pub in_string : Bool
  pub escaped : Bool

abbrev scan_string : Char → Scan → Scan
scan_string c s =
    if s.escaped
    then record s { escaped = false }
    else if eqb (code c) 92
    then record s { escaped = true }
    else if eqb (code c) 34
    then record s { in_string = false }
    else s

abbrev scan_outside : Char → Scan → Scan
scan_outside c s =
    if eqb (code c) 34
    then record s { in_string = true }
    else if eqb (code c) 123
    then record s { depth = s.depth + 1 }
    else if eqb (code c) 125
    then record s { depth = s.depth - 1 }
    else s

unfoldable pub scan_char : Char → Scan → Scan
scan_char c s = if s.in_string then scan_string c s else scan_outside c s

-- The text up to the brace that closes the first one: the bytes that it looks at are ASCII, so
-- the characters do.
unfoldable pub object_text : Scan → String → Option String
unfolding scan_char
object_text s [] = none
object_text s (c ∷ text) =
    let rest = object_text (scan_char c s) text >>= λ found. some (c ∷ found) in
    if not s.in_string && (eqb (code c) 125 && eqb (scan_char c s).depth 0)
    then some (c ∷ [])
    else rest

unfoldable pub find_json_object_end : String → Option String
unfolding object_text starts_with
find_json_object_end text =
    if starts_with "{" text
    then object_text (record { depth = 0; in_string = false; escaped = false }) text
    else none

unfoldable pub is_shell_program : String → Bool
is_shell_program program =
    program == "bash"
    || (program == "/bin/bash"
        || (program == "sh"
            || (program == "/bin/sh" || (program == "zsh" || program == "/bin/zsh"))))

unfoldable pub all_texts : List Value → Option (List String)
all_texts [] = some []
all_texts (v ∷ rest) = as_str v >>= λ s. all_texts rest >>= λ texts. some (s ∷ texts)

-- The arguments after the program, and after a flag that takes a command.
unfoldable pub command_parts : List String → List String
command_parts [] = []
command_parts (flag ∷ []) = flag ∷ []
command_parts (flag ∷ first ∷ rest) =
    if flag == "-lc" || flag == "-c" then first ∷ rest else flag ∷ first ∷ rest

abbrev nonempty : String → Option String
nonempty s = if is_empty s then none else some s

-- The command that a shell is called with, if it is one.
unfoldable pub command_text : List String → Option String
unfolding is_shell_program command_parts join trim
command_text [] = none
command_text (shell ∷ args) =
    if is_shell_program shell then nonempty (trim (join " " (command_parts args))) else none

abbrev with_description : Option String → Fields → Fields
with_description none args = args
with_description (some description) args =
    if is_empty (trim description)
    then args
    else insert_field "description" (string description) args

-- `as_i64`; of a negative number only the sign matters.
abbrev as_i64 : Value → Option ℕ
as_i64 (number (pos_int n)) = if leb 0x8000000000000000 n then none else some n
as_i64 (number (neg_int n)) = some 0
as_i64 _ = none

abbrev with_timeout : Option ℕ → Fields → Fields
with_timeout none args = args
with_timeout (some timeout) args =
    if eqb timeout 0 then args else insert_field "timeout" (number (pos_int timeout)) args

abbrev pub bash_arguments : Fields → String → Value
bash_arguments obj command =
    let timeout =
      (get_field "timeout" obj >>= λ v. as_i64 v)
      or_else (get_field "timeout_ms" obj >>= λ v. as_i64 v) in
    object (
      with_timeout timeout (
        with_description (get_field "description" obj >>= λ v. as_str v)
          (insert_field "command" (string command) end)))

unfoldable pub normalize_bash_command_array_arguments : Value → Option Value
unfolding get_field to_list all_texts command_text insert_field trim
normalize_bash_command_array_arguments value = as_object value >>= λ obj.
    get_field "command" obj >>= λ command. as_array command >>= λ items.
    all_texts (to_list items) >>= λ argv.
    command_text argv >>= λ text. some (bash_arguments obj text)

module _ (from_str : String → Option Value) where
  abbrev read_command : String → String → Option ParsedTextToolCall
  read_command tool_name text = find_json_object_end text >>= λ found. from_str found >>= λ value.
      normalize_bash_command_array_arguments value >>= λ arguments.
      some (record { name = tool_name; arguments = arguments })

  -- The search for a brace, from every place on.
  unfoldable pub find_command : String → String → Option ParsedTextToolCall
  unfolding find_json_object_end normalize_bash_command_array_arguments
  find_command tool_name [] = none
  find_command tool_name (c ∷ s) =
      let later = find_command tool_name s in read_command tool_name (c ∷ s) or_else later

  unfoldable pub parse_command_array_text_tool_call : String → HashSet → Option ParsedTextToolCall
  unfolding resolve_allowed_tool_name find_command
  parse_command_array_text_tool_call text allowed_tool_names =
      resolve_allowed_tool_name allowed_tool_names "Bash" >>= λ tool_name.
      find_command tool_name text

  unfoldable pub parse_text_tool_call_fallback : String → HashSet → Option ParsedTextToolCall
  unfolding parse_strict_text_tool_call parse_command_array_text_tool_call
  parse_text_tool_call_fallback text allowed_tool_names =
      parse_strict_text_tool_call from_str text allowed_tool_names
      or_else parse_command_array_text_tool_call text allowed_tool_names
