-- ===== src/Observability/Tests.antt =====
-- The theorems on metrics and usage at concrete payloads and streams.
use ai_open_router.Text.Lines.{strip_carriage_return}
use ai_open_router.Prelude.{
  ◌++◌ as append, ℕ, String, ◌≡◌, ◌<◌, ◌+◌, refl, true, false, Option, none, some, List, [], ◌∷◌,
  arith, if◌then◌else◌, ◌==◌,
}
use ai_open_router.Json.{Value, object, field, end, number, Number}
use ai_open_router.Entities.{TokenUsage}
use ai_open_router.Observability.Metrics.{
  Event, increment_error, increment_request, add_latency, add_token_usage, apply_all, snapshot, new,
}
use ai_open_router.Observability.Metrics.Laws.{Fits, ShowsTotals, snapshot-ShowsTotals}
use ai_open_router.Observability.Usage.{
  candidates, first_u64, extract_token_usage, usage_of, input_fields,
}
use ai_open_router.Observability.Usage.Places.{first_value, usage_paths}
use ai_open_router.Observability.Usage.Laws.{Split, extract_token_usage-Split}
use ai_open_router.Text.Utf8.{as_bytes}
use ai_open_router.Text.Decode.Laws.{IsWhole, state_after}
use ai_open_router.Observability.Stream.{StreamTokenAccumulator, start, consume_chunk}
use ai_open_router.Observability.Stream.Laws.{IsLine, consume_chunk-append}

abbrev count : ℕ → Value
count n = number (Number.pos_int n)

-- An OpenAI usage of 10 input tokens, 4 of them from the cache.
abbrev usage : Value
usage = object (
    field "prompt_tokens" (count 10) (
      field "completion_tokens" (count 3)
        (field "prompt_tokens_details" (object (field "cached_tokens" (count 4) end)) end)))

abbrev payload : Value
payload = object (field "usage" usage end)

abbrev reported : TokenUsage
reported = record {
  input_tokens = 6;
  output_tokens = 3;
  cache_read_tokens = 4;
  cache_write_tokens = 0;
}

payload-reported : extract_token_usage payload ≡ some reported
unfolding extract_token_usage usage_of ai_open_router.Observability.Usage.read_usage
    ai_open_router.Observability.Usage.normalize_input_tokens first_u64
payload-reported = refl

extract_token_usage-Split_example :
    (u : Value) × (first_value usage_paths payload ≡ some u)
    × (0
        < reported.input_tokens + reported.output_tokens + reported.cache_read_tokens
          + reported.cache_write_tokens)
    × Split u reported
extract_token_usage-Split_example = extract_token_usage-Split payload reported payload-reported

abbrev history : List Event
history =
    increment_request true
    ∷ increment_request false
    ∷ add_latency 30
    ∷ add_latency 20
    ∷ add_token_usage reported
    ∷ increment_error
    ∷ []

history-Fits : Fits history
history-Fits = record {
  requests = omega arith;
  streams = omega arith;
  errors = omega arith;
  latency = omega arith;
  input = omega arith;
  output = omega arith;
  cache_read = omega arith;
  cache_write = omega arith;
}

snapshot-ShowsTotals_example : ShowsTotals history (snapshot (apply_all history new))
snapshot-ShowsTotals_example = snapshot-ShowsTotals history history-Fits

-- A parser that knows one text.
abbrev parse : String → Option Value
parse text = if text == "{}" then some payload else none

abbrev front : List ℕ
front = as_bytes "data: {"

abbrev back : List ℕ
back = as_bytes "}\n"

front-IsWhole : IsWhole front
unfolding state_after as_bytes ai_open_router.Text.Decode.next_byte
front-IsWhole = refl

start-IsLine : IsLine start.line_buffer
unfolding start
start-IsLine = tt

cut_line_counts : (consume_chunk parse back (consume_chunk parse front start)).counts ≡ reported
unfolding consume_chunk start strip_carriage_return extract_token_usage
    ai_open_router.Observability.Stream.consume_line ai_open_router.Observability.Stream.line_usage
    usage_of ai_open_router.Observability.Usage.read_usage
    ai_open_router.Observability.Usage.normalize_input_tokens first_u64 as_bytes
cut_line_counts = refl

-- A character that is cut between two chunks is lost.
cut_character :
    ((consume_chunk parse (0xa9 ∷ []) (consume_chunk parse (0xc3 ∷ []) start)).line_buffer ≡ "��")
    × ((consume_chunk parse (0xc3 ∷ 0xa9 ∷ []) start).line_buffer ≡ "é")
unfolding consume_chunk start
cut_character = (refl, refl)

consume_chunk-append_example :
    (consume_chunk parse back (consume_chunk parse front start)
      ≡ consume_chunk parse (append front back) start)
    × IsLine (consume_chunk parse front start).line_buffer
consume_chunk-append_example =
    consume_chunk-append parse front back start front-IsWhole start-IsLine
