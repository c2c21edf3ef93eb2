-- ===== src/Transform/Common.antt =====
-- transformer/convert/common.rs: the texts of JSON contents, the data of an event, and the model
-- of a request.
use Prim.Native.String.{[], ◌++◌}
use ai_open_router.Prelude.{ℕ, String, Option, none, some, List, [], ◌∷◌, ◌>>=◌, Result, ok, err}
use ai_open_router.Text.{trim, strip_prefix}
use ai_open_router.Text.Decode.{from_utf8_lossy}
use ai_open_router.Text.Lines.{lines}
use ai_open_router.Json.{Value, string, array, object, get, as_str, to_list, insert_field}

-- `join` of the source.
unfoldable pub join : String → List String → String
join separator [] = ""
join separator (part ∷ []) = part
join separator (part ∷ next ∷ parts) = part ++ (separator ++ join separator (next ∷ parts))

abbrev keep_text : Option String → List String → List String
keep_text none texts = texts
keep_text (some text) texts = text ∷ texts

-- The texts of the blocks that have one.
unfoldable pub block_texts : List Value → List String
unfolding get
block_texts [] = []
block_texts (block ∷ blocks) = keep_text (get "text" block >>= λ t. as_str t) (block_texts blocks)

unfoldable pub extract_system_text : Value → String
unfolding join block_texts to_list
extract_system_text (string s) = s
extract_system_text (array blocks) = join "\n" (block_texts (to_list blocks))
extract_system_text _ = ""

unfoldable pub extract_tool_result_content : (Value → String) → Value → String
unfolding join block_texts to_list
extract_tool_result_content to_string (string s) = s
extract_tool_result_content to_string (array blocks) = join "\n" (block_texts (to_list blocks))
extract_tool_result_content to_string content = to_string content

-- A line of an event: the last `event: ` and the last `data: ` count.
unfoldable pub parse_line : String → String × String → String × String
unfolding trim strip_prefix
parse_line line (event_type, json_data) = elim (strip_prefix "event: " (trim line)) [
  | some found ↦ (found, json_data)
  | none ↦ elim (strip_prefix "data: " (trim line)) [
    | some found ↦ (event_type, found)
    | none ↦ (event_type, json_data)
  ]
]

unfoldable pub parse_lines : List String → String × String → String × String
unfolding parse_line
parse_lines [] found = found
parse_lines (line ∷ rest) found = parse_lines rest (parse_line line found)

unfoldable pub parse_sse : List ℕ → String × String
unfolding from_utf8_lossy lines parse_lines
parse_sse event = parse_lines (lines (from_utf8_lossy event)) ("", "")

abbrev pub with_model : String → Value → Value
with_model model (object request) = object (insert_field "model" (string model) request)
with_model model request = request

-- `serde_json::from_slice` and `to_vec` are parameters.
unfoldable pub override_request_model :
    (List ℕ → Result String Value)
    → (Value → Result String (List ℕ))
    → List ℕ
    → String
    → Result String (List ℕ)
unfolding insert_field
override_request_model from_slice to_vec request model = elim (from_slice request) [
  | err e ↦ err ("parse request: " ++ e)
  | ok value ↦ elim (to_vec (with_model model value)) [
    | err e ↦ err ("serialize request: " ++ e)
    | ok bytes ↦ ok bytes
  ]
]
