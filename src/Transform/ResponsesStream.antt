-- ===== src/Transform/ResponsesStream.antt =====
-- transformer/convert/claude_openai_responses_stream.rs: how a stream of the Responses API ends as
-- a Claude stream.
pub mod Laws
use ai_open_router.Prelude.{
  ◌≡◌, refl, ap, sym, ◌∙◌, Bool, true, false, not, ◌&&◌, ◌||◌, Option, none, some, List, [], ◌∷◌,
  ◌++◌, if◌then◌else◌, any, is_nil, retain, Bool-cases, inl, inr, arith, if_true, if_false,
}
use ai_open_router.Transform.Context.{ℤ, eq_int, le_int, StreamContext}
use ai_open_router.Transform.Events.{ClaudeEvent, content_block_stop, message_stop}
use ai_open_router.Transform.OpenAiStream.{Output, emit, set, begin}

-- `Option<i32>` against `Some(index)`.
abbrev is_index : ℤ → Option ℤ → Bool
is_index index none = false
is_index index (some other) = eq_int other index

unfoldable pub close_open_index : ℤ → Output → Output
unfolding any retain
close_open_index index o =
    if not (any (eq_int index) o.ctx.responses_open_indices)
    then o
    else emit (content_block_stop index) (
        set
          (record o.ctx {
            responses_open_indices =
                retain (λ other. not (eq_int index other)) o.ctx.responses_open_indices;
            responses_fallback_open_index =
                if is_index index o.ctx.responses_fallback_open_index
                then none
                else o.ctx.responses_fallback_open_index;
          })
          o)

abbrev pub insert_sorted : ℤ → List ℤ → List ℤ
insert_sorted index [] = index ∷ []
insert_sorted index (other ∷ rest) =
    if le_int index other then index ∷ other ∷ rest else other ∷ insert_sorted index rest

-- `sort_unstable`.
unfoldable pub sort : List ℤ → List ℤ
unfolding le_int
sort [] = []
sort (index ∷ rest) = insert_sorted index (sort rest)

unfoldable pub close_indices : List ℤ → Output → Output
unfolding close_open_index
close_indices [] o = o
close_indices (index ∷ rest) o = close_indices rest (close_open_index index o)

unfoldable pub close_all_open_indices : Output → Output
unfolding close_indices sort
close_all_open_indices o = close_indices (sort o.ctx.responses_open_indices) o

unfoldable pub finalize_openai_responses_stream_to_claude_done : StreamContext → Output
unfolding close_all_open_indices
finalize_openai_responses_stream_to_claude_done ctx =
    let shut = close_all_open_indices (begin ctx) in
    let cleared =
      set
        (record shut.ctx {
          responses_tool_index_by_item_id = [];
          responses_last_tool_index = none;
          responses_fallback_open_index = none;
        })
        shut in
    if not cleared.ctx.finish_reason_sent && cleared.ctx.message_start_sent
    then emit message_stop (set (record cleared.ctx { finish_reason_sent = true }) cleared)
    else cleared

-- Nothing was started, or the message has been stopped.
unfoldable pub has_ended : StreamContext → Bool
has_ended ctx =
    ctx.finish_reason_sent
    || (not ctx.message_start_sent
        && is_nil ctx.responses_open_indices
        && not ctx.tool_block_started
        && not ctx.content_block_started
        && not ctx.thinking_block_started)

unfoldable pub finalize_openai_responses_stream_to_claude : StreamContext → Output
unfolding has_ended finalize_openai_responses_stream_to_claude_done
finalize_openai_responses_stream_to_claude ctx =
    if has_ended ctx then begin ctx else finalize_openai_responses_stream_to_claude_done ctx
