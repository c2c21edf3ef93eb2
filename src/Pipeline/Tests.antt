-- ===== src/Pipeline/Tests.antt =====
-- The theorems on the pipeline at concrete requests and streams.
use ai_open_router.Prelude.{ℕ, ◌≡◌, refl, true, false, some, List, [], ◌∷◌, ◌++◌, ◌↔◌, concat}
use ai_open_router.Text.{trim, is_empty}
use ai_open_router.Dict.{contains_key}
use ai_open_router.Json.{Fields, object, array, string, field, end, of_list}
use ai_open_router.Entities.{TokenUsage}
use ai_open_router.Routing.Types.{EntryProtocol, EntryEndpoint, PathEntry}
use ai_open_router.Routing.Headers.{Header}
use ai_open_router.Pipeline.Framing.{all_events}
use ai_open_router.Pipeline.Framing.Events.{IsFraming, all_events-IsFraming}
use ai_open_router.Pipeline.Framing.Chunks.{all_events-append}
use ai_open_router.Pipeline.Capture.{capture_all, empty_capture}
use ai_open_router.Pipeline.Capture.Laws.{Holds, capture_all-Holds}
use ai_open_router.Pipeline.Access.{
  request_matches_local_access_token, Presents, request_matches-Presents,
}
use ai_open_router.Pipeline.Request.{extract_declared_tool_names}

-- "a\n\nb\n", and "\nc".
abbrev first_chunk : List ℕ
first_chunk = b'a' ∷ b'\n' ∷ b'\n' ∷ b'b' ∷ b'\n' ∷ []

abbrev second_chunk : List ℕ
second_chunk = b'\n' ∷ b'c' ∷ []

frames :
    all_events (first_chunk ++ second_chunk)
    ≡ ((b'a' ∷ b'\n' ∷ b'\n' ∷ []) ∷ (b'b' ∷ b'\n' ∷ b'\n' ∷ []) ∷ [], b'c' ∷ [])
unfolding all_events
frames = refl

all_events-IsFraming_example : IsFraming first_chunk (all_events first_chunk)
all_events-IsFraming_example = all_events-IsFraming first_chunk

all_events-append_example : all_events (first_chunk ++ second_chunk) ≡ (
  (all_events first_chunk).0 ++ (all_events ((all_events first_chunk).1 ++ second_chunk)).0,
  (all_events ((all_events first_chunk).1 ++ second_chunk)).1,
)
all_events-append_example = all_events-append first_chunk second_chunk

capture_all-Holds_example :
    Holds
      (concat (first_chunk ∷ second_chunk ∷ []))
      (capture_all true false (first_chunk ∷ second_chunk ∷ []) empty_capture)
capture_all-Holds_example = capture_all-Holds (first_chunk ∷ second_chunk ∷ []) false

abbrev messages_entry : PathEntry
messages_entry = record { protocol = EntryProtocol.anthropic; endpoint = EntryEndpoint.messages }

abbrev api_key : List Header
api_key = ("x-api-key", some "token ") ∷ []

key_matches : request_matches_local_access_token api_key messages_entry " token" ≡ true
unfolding request_matches_local_access_token
key_matches = refl

request_matches-Presents_example :
    (request_matches_local_access_token api_key messages_entry " token" ≡ true) ↔ (
      (is_empty (trim " token") ≡ false) × Presents EntryProtocol.anthropic api_key (trim " token"))
request_matches-Presents_example = request_matches-Presents api_key messages_entry " token"

abbrev tools_body : Fields
tools_body =
    field "model" (string "claude")
      (field "tools" (array (of_list (object (field "name" (string " bash ") end) ∷ []))) end)

bash_declared : contains_key "bash" (extract_declared_tool_names (object tools_body)) ≡ true
unfolding extract_declared_tool_names contains_key of_list
bash_declared = refl

abbrev input_only : TokenUsage
input_only = record {
  input_tokens = 7;
  output_tokens = 0;
  cache_read_tokens = 0;
  cache_write_tokens = 0;
}

abbrev output_only : TokenUsage
output_only = record {
  input_tokens = 0;
  output_tokens = 9;
  cache_read_tokens = 0;
  cache_write_tokens = 0;
}
