-- ===== src/Pipeline/Probe.antt =====
-- proxy/pipeline.rs: which answers are taken for event streams.
use ai_open_router.Prelude.{
  ℕ, String, Bool, false, not, ◌&&◌, ◌||◌, List, take, is_nil, if◌then◌else◌, get_or,
}
use ai_open_router.Text.{
  is_empty, is_whitespace, trim_start_by, strip_prefix, starts_with, contains, to_ascii_lowercase,
}
use ai_open_router.Text.Decode.{from_utf8_lossy}

-- The text that is looked at, without a byte order mark and the white space in front.
unfoldable pub probe_text : List ℕ → String
unfolding from_utf8_lossy strip_prefix trim_start_by is_whitespace to_ascii_lowercase
probe_text bytes =
    let probe = from_utf8_lossy (take 256 bytes) in
    to_ascii_lowercase (trim_start_by is_whitespace (get_or (strip_prefix "\u{feff}" probe) probe))

unfoldable pub looks_like_sse_prelude : List ℕ → Bool
unfolding probe_text starts_with
looks_like_sse_prelude bytes =
    if is_nil bytes
    then false
    else starts_with "event:" (probe_text bytes)
      || (starts_with "data:" (probe_text bytes) || starts_with ":" (probe_text bytes))

-- Of the content type in lower case: an answer without one, or a plain text, is probed.
unfoldable pub sse_fallback_probe_enabled : Bool → String → Bool
unfolding contains
sse_fallback_probe_enabled stream upstream_ct =
    stream
    && (not (contains "text/event-stream" upstream_ct)
        && (not (contains "application/json" upstream_ct)
            && (is_empty upstream_ct || contains "text/plain" upstream_ct)))

-- Whether the answer is relayed as a stream.
unfoldable pub is_streamed : Bool → String → Bool
unfolding contains sse_fallback_probe_enabled
is_streamed stream upstream_ct =
    contains "text/event-stream" upstream_ct || sse_fallback_probe_enabled stream upstream_ct
