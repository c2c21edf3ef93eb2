-- ===== src/Pipeline/Debug.antt =====
-- proxy/pipeline.rs, `StreamDebugState`: what the log says about the course of a stream.
use Prim.Native.Char.{code}
use Prim.Native.String.{[], ◌∷◌}
use ai_open_router.Prelude.{
  ℕ, String, ◌+◌, max, Bool, true, false, ◌&&◌, ◌||◌, Option, none, some, List, [], ◌∷◌, ◌==◌,
  ◌or_else◌, eqb, if◌then◌else◌, ◌>>=◌, length,
}
use ai_open_router.Text.{trim, trim_start_by, is_whitespace, is_empty, strip_prefix}
use ai_open_router.Text.Search.{push_head}
use ai_open_router.Text.Decode.{from_utf8_lossy}
use ai_open_router.Json.{
  Value, null, boolean, number, string, object, end, field, pos_int, get, as_str,
}
use ai_open_router.Text.Lines.{lines}

pub record StreamDebugState : Type 0 where
  pub entered_stream_mode : Bool
  pub transformer_name : String
  pub requires_buffer : Bool
  pub probe_sse_enabled : Bool
  pub upstream_content_type : String
  pub upstream_chunk_count : ℕ
  pub upstream_chunk_bytes : ℕ
  pub upstream_event_count : ℕ
  pub first_upstream_event : Option String
  pub first_upstream_data_type : Option String
  pub upstream_done_seen : Bool
  pub transformed_chunk_count : ℕ
  pub transformed_chunk_bytes : ℕ
  pub transformed_event_count : ℕ
  pub first_transformed_event : Option String
  pub first_transformed_data_type : Option String
  pub transformed_done_seen : Bool
  pub transformed_message_start_seen : Bool
  pub transformed_message_delta_seen : Bool
  pub transformed_message_stop_seen : Bool
  pub downstream_send_count : ℕ
  pub finalizer_count : ℕ
  pub finalizer_bytes : ℕ

pub record SsePayloadSummary : Type 0 where
  pub event_count : ℕ
  pub first_event : Option String
  pub first_data_type : Option String
  pub done_seen : Bool
  pub message_start_seen : Bool
  pub message_delta_seen : Bool
  pub message_stop_seen : Bool

abbrev pub no_summary : SsePayloadSummary
no_summary = record {
  event_count = 0;
  first_event = none;
  first_data_type = none;
  done_seen = false;
  message_start_seen = false;
  message_delta_seen = false;
  message_stop_seen = false;
}

-- `replace("\r\n", "\n")`.
unfoldable pub unify_newlines : String → String
unify_newlines [] = []
unify_newlines (c ∷ []) = c ∷ []
unify_newlines (c ∷ (d ∷ s)) =
    let rest = unify_newlines (d ∷ s) in
    if eqb (code c) 13 && eqb (code d) 10 then rest else c ∷ rest

-- `split("\n\n")`.
unfoldable pub split_blank_line : String → List String
split_blank_line [] = [] ∷ []
split_blank_line (c ∷ []) = (c ∷ []) ∷ []
split_blank_line (c ∷ (d ∷ s)) =
    let after = split_blank_line s in
    let rest = split_blank_line (d ∷ s) in
    if eqb (code c) 10 && eqb (code d) 10 then [] ∷ after else push_head c rest

abbrev is_type : String → Option String → Bool
is_type name none = false
is_type name (some found) = found == name

abbrev name_event : Option String → SsePayloadSummary → SsePayloadSummary
name_event event_name s = record s { first_event = s.first_event or_else event_name }

abbrev see_type : Option String → SsePayloadSummary → SsePayloadSummary
see_type found s = record s {
  first_data_type = s.first_data_type or_else found;
  message_start_seen = s.message_start_seen || is_type "message_start" found;
  message_delta_seen = s.message_delta_seen || is_type "message_delta" found;
  message_stop_seen = s.message_stop_seen || is_type "message_stop" found;
}

abbrev see_parsed : Option Value → SsePayloadSummary → SsePayloadSummary
see_parsed none s = s
see_parsed (some parsed) s = see_type (get "type" parsed >>= λ v. as_str v) s

module _ (from_str : String → Option Value) where
  unfoldable pub see_data : String → SsePayloadSummary → SsePayloadSummary
  unfolding get
  see_data content s =
      if content == "[DONE]"
      then record s { done_seen = true }
      else if is_empty content
      then s
      else see_parsed (from_str content) s

  -- One line of an event.
  unfoldable pub see_line : String → SsePayloadSummary → SsePayloadSummary
  unfolding trim trim_start_by is_whitespace strip_prefix see_data
  see_line raw s =
      let line = trim_start_by is_whitespace raw in
      let named = name_event (strip_prefix "event:" line >>= λ name. some (trim name)) s in
      elim (strip_prefix "data:" line) [
        | none ↦ named
        | some data_line ↦ see_data (trim data_line) named
      ]

  unfoldable pub see_lines : List String → SsePayloadSummary → SsePayloadSummary
  unfolding see_line
  see_lines [] s = s
  see_lines (line ∷ rest) s = see_lines rest (see_line line s)

  -- The loop over the events of a payload.
  unfoldable pub see_events : List String → SsePayloadSummary → SsePayloadSummary
  unfolding see_lines lines trim
  see_events [] s = s
  see_events (raw_event ∷ events) s =
      let trimmed = trim raw_event in
      see_events events (
        if is_empty trimmed
        then s
        else see_lines (lines trimmed) (record s { event_count = s.event_count + 1 }))

  unfoldable pub summarize_sse_payload : List ℕ → SsePayloadSummary
  unfolding from_utf8_lossy unify_newlines split_blank_line see_events
  summarize_sse_payload payload =
      see_events (split_blank_line (unify_newlines (from_utf8_lossy payload))) no_summary

  unfoldable pub stream_debug_update_upstream_event : List ℕ → StreamDebugState → StreamDebugState
  stream_debug_update_upstream_event payload state =
      let summary = summarize_sse_payload payload in
      record state {
        upstream_event_count = state.upstream_event_count + max summary.event_count 1;
        first_upstream_event = state.first_upstream_event or_else summary.first_event;
        first_upstream_data_type = state.first_upstream_data_type or_else summary.first_data_type;
        upstream_done_seen = state.upstream_done_seen || summary.done_seen;
      }

  unfoldable pub stream_debug_update_transformed_chunk :
      List ℕ → StreamDebugState → StreamDebugState
  stream_debug_update_transformed_chunk payload state =
      let summary = summarize_sse_payload payload in
      record state {
        transformed_chunk_count = state.transformed_chunk_count + 1;
        transformed_chunk_bytes = state.transformed_chunk_bytes + length payload;
        transformed_event_count = state.transformed_event_count + summary.event_count;
        first_transformed_event = state.first_transformed_event or_else summary.first_event;
        first_transformed_data_type =
            state.first_transformed_data_type or_else summary.first_data_type;
        transformed_done_seen = state.transformed_done_seen || summary.done_seen;
        transformed_message_start_seen =
            state.transformed_message_start_seen || summary.message_start_seen;
        transformed_message_delta_seen =
            state.transformed_message_delta_seen || summary.message_delta_seen;
        transformed_message_stop_seen =
            state.transformed_message_stop_seen || summary.message_stop_seen;
      }

unfoldable pub stream_debug_update_upstream_chunk : List ℕ → StreamDebugState → StreamDebugState
stream_debug_update_upstream_chunk payload state = record state {
  upstream_chunk_count = state.upstream_chunk_count + 1;
  upstream_chunk_bytes = state.upstream_chunk_bytes + length payload;
}

abbrev natural : ℕ → Value
natural n = number (pos_int n)

abbrev text_or_null : Option String → Value
text_or_null none = null
text_or_null (some s) = string s

unfoldable pub stream_debug_summary_json : StreamDebugState → Value
stream_debug_summary_json state = object (
    field "enteredStreamMode" (boolean state.entered_stream_mode) (
      field "transformerName" (string state.transformer_name) (
        field "requiresBuffer" (boolean state.requires_buffer) (
          field "probeSseEnabled" (boolean state.probe_sse_enabled) (
            field "upstreamContentType" (string state.upstream_content_type) (
              field "upstreamChunkCount" (natural state.upstream_chunk_count) (
                field "upstreamChunkBytes" (natural state.upstream_chunk_bytes) (
                  field "upstreamEventCount" (natural state.upstream_event_count) (
                    field "firstUpstreamEvent" (text_or_null state.first_upstream_event) (
                      field "firstUpstreamDataType" (text_or_null state.first_upstream_data_type) (
                        field "upstreamDoneSeen" (boolean state.upstream_done_seen) (
                          field "transformedChunkCount" (natural state.transformed_chunk_count) (
                            field "transformedChunkBytes" (natural state.transformed_chunk_bytes) (
                              field "transformedEventCount" (natural state.transformed_event_count)
                                (field "firstTransformedEvent"
                                  (text_or_null state.first_transformed_event)
                                  (field "firstTransformedDataType"
                                    (text_or_null state.first_transformed_data_type)
                                    (field "transformedDoneSeen"
                                      (boolean state.transformed_done_seen)
                                      (field "transformedMessageStartSeen"
                                        (boolean state.transformed_message_start_seen)
                                        (field "transformedMessageDeltaSeen"
                                          (boolean state.transformed_message_delta_seen)
                                          (field "transformedMessageStopSeen"
                                            (boolean state.transformed_message_stop_seen)
                                            (field "downstreamSendCount"
                                              (natural state.downstream_send_count)
                                              (field "finalizerCount"
                                                (natural state.finalizer_count)
                                                (field "finalizerBytes"
                                                  (natural state.finalizer_bytes)
                                                  end)))))))))))))))))))))))
