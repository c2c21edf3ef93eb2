-- ===== src/Observability/Stream.antt =====
-- proxy/observability.rs, `StreamTokenAccumulator`: token usage out of the lines of an event stream.
-- `serde_json::from_str` is a parameter.
pub mod Laws
use ai_open_router.Text.Lines.{strip_carriage_return}
use Prim.Native.Char.{code}
use Prim.Native.String.{[], ◌∷◌, ◌++◌, count}
use ai_open_router.Prelude.{
  ℕ, zero, suc, String, ◌+◌, max, Bool, ◌||◌, Option, none, some, List, ◌==◌, eqb, if◌then◌else◌,
  ◌>>=◌,
}
use ai_open_router.Text.{is_empty, trim_start_by, is_whitespace, strip_prefix, split_once}
use ai_open_router.Text.Decode.{from_utf8_lossy}
use ai_open_router.Json.{Value}
use ai_open_router.Entities.{TokenUsage}
use ai_open_router.Observability.Usage.{extract_token_usage, nonzero_usage}

pub record StreamTokenAccumulator : Type 0 where
  pub line_buffer : String
  pub counts : TokenUsage

abbrev pub zero_usage : TokenUsage
zero_usage = record {
  input_tokens = 0;
  output_tokens = 0;
  cache_read_tokens = 0;
  cache_write_tokens = 0;
}

-- `StreamTokenAccumulator::default()`.
unfoldable pub start : StreamTokenAccumulator
start = record { line_buffer = ""; counts = zero_usage }

-- The greater of each count: the payloads can repeat cumulative counts.
abbrev pub max_usage : TokenUsage → TokenUsage → TokenUsage
max_usage a b = record {
  input_tokens = max a.input_tokens b.input_tokens;
  output_tokens = max a.output_tokens b.output_tokens;
  cache_read_tokens = max a.cache_read_tokens b.cache_read_tokens;
  cache_write_tokens = max a.cache_write_tokens b.cache_write_tokens;
}

module _ (from_str : String → Option Value) where
  -- The usage that a line reports.
  unfoldable pub line_usage : String → Option TokenUsage
  unfolding is_whitespace trim_start_by strip_prefix
  line_usage line = strip_prefix "data:" line >>= λ rest.
      let payload = trim_start_by is_whitespace rest in
      if is_empty payload || payload == "[DONE]"
      then none
      else from_str payload >>= extract_token_usage

  abbrev absorb : Option TokenUsage → TokenUsage → TokenUsage
  absorb none counts = counts
  absorb (some usage) counts = max_usage counts usage

  unfoldable pub consume_line : String → TokenUsage → TokenUsage
  consume_line line counts = absorb (line_usage line) counts

  -- The `while let` loop over the lines of the buffer, on fuel.
  unfoldable pub drain : ℕ → StreamTokenAccumulator → StreamTokenAccumulator
  drain zero acc = acc
  drain (suc fuel) acc = elim (split_once 10 acc.line_buffer) [
    | none ↦ acc
    | some (line, rest) ↦ drain fuel (record {
      line_buffer = rest;
      counts = consume_line (strip_carriage_return line) acc.counts;
    })
  ]

  -- A chunk by its text. The characters of the buffer are fuel enough: each round takes at least
  -- the line feed.
  unfoldable pub consume_text : String → StreamTokenAccumulator → StreamTokenAccumulator
  unfolding drain split_once
  consume_text text acc =
      let buffer = acc.line_buffer ++ text in
      drain (suc (count buffer)) (record acc { line_buffer = buffer })

  -- Each chunk is decoded on its own.
  unfoldable pub consume_chunk : List ℕ → StreamTokenAccumulator → StreamTokenAccumulator
  unfolding consume_text from_utf8_lossy
  consume_chunk chunk acc = consume_text (from_utf8_lossy chunk) acc

  -- `into_token_usage`.
  unfoldable pub into_token_usage : StreamTokenAccumulator → Option TokenUsage
  into_token_usage acc = nonzero_usage acc.counts
