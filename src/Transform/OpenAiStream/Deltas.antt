-- ===== src/Transform/OpenAiStream/Deltas.antt =====
-- The deltas and tool calls of transformer/convert/claude_openai.rs as a reader sees them.
use ai_open_router.Prelude.{
  String, ◌≡◌, refl, Bool, true, false, ◌&&◌, Bool-cases, inl, inr, arith, if_true, if_false, subst,
}
use ai_open_router.Text.{is_empty}
use ai_open_router.Transform.Context.{OpenAiToolCall, ℤ}
use ai_open_router.Transform.Events.{text, thinking, content_block_start}
use ai_open_router.Transform.OpenAiStream.{
  Output, open_text_block, open_thinking_block, emit_text_delta, emit_thinking_delta,
  close_thinking_block, leave_text_block, leave_tool_block, start_tool_call, open_tool_block,
  add_arguments,
}
use ai_open_router.Transform.OpenAiStream.Reader.{
  Block, closed, in_text, in_thinking, in_tool, Reader, read, eq_int_refl,
}
use ai_open_router.Transform.OpenAiStream.Blocks.{
  nothing_open, IsSound, emit-IsSound, without_text, without_thinking, without_tool,
  close_thinking_block-IsSound, leave_text_block-IsSound, leave_tool_block-IsSound,
}

abbrev pub is_tool : Block → Bool
is_tool (in_tool i) = true
is_tool b = false

-- A sound output, and whether a tool block is open in it.
pub record Lands (from : Reader) (tool : Bool) (o : Output) : Type 0 where
  pub block : Block
  pub sound : IsSound from block o
  pub open_tool : is_tool block ≡ tool

module _ (from : Reader) where
  open_text-closed :
      (o : Output)
      → IsSound from closed o
      → IsSound from (in_text o.ctx.content_index) (open_text_block o)
  unfolding open_text_block read
  open_text-closed o h = rw (if_false o.ctx.content_block_started o _ h.shows.0) (
      emit-IsSound from closed (in_text o.ctx.content_index) o
        (record o.ctx { content_block_started = true })
        (content_block_start o.ctx.content_index text) h refl h.started
        (refl, h.shows.1, h.shows.2, refl))

  -- After a block of another kind is left, a text block is open.
  opened_text :
      (b : Block) (o : Output)
      → IsSound from (without_tool (without_thinking b)) o
      → (i : ℤ) × IsSound from (in_text i) (open_text_block o)
  unfolding open_text_block
  opened_text closed o h = (o.ctx.content_index, open_text-closed o h)
  opened_text (in_thinking i) o h = (o.ctx.content_index, open_text-closed o h)
  opened_text (in_tool i) o h = (o.ctx.content_index, open_text-closed o h)
  opened_text (in_text i) o h = (i, rw (if_true o.ctx.content_block_started o _ h.shows.0) h)

  open_thinking-closed :
      (o : Output)
      → IsSound from closed o
      → IsSound from (in_thinking o.ctx.content_index) (open_thinking_block o)
  unfolding open_thinking_block read
  open_thinking-closed o h = rw (if_false o.ctx.thinking_block_started o _ h.shows.1) (
      emit-IsSound from closed (in_thinking o.ctx.content_index) o
        (record o.ctx { thinking_block_started = true; thinking_index = o.ctx.content_index })
        (content_block_start o.ctx.content_index thinking) h refl h.started
        (h.shows.0, refl, h.shows.2, refl))

  opened_thinking :
      (b : Block) (o : Output)
      → IsSound from (without_tool (without_text b)) o
      → (i : ℤ) × IsSound from (in_thinking i) (open_thinking_block o)
  unfolding open_thinking_block
  opened_thinking closed o h = (o.ctx.content_index, open_thinking-closed o h)
  opened_thinking (in_text i) o h = (o.ctx.content_index, open_thinking-closed o h)
  opened_thinking (in_tool i) o h = (o.ctx.content_index, open_thinking-closed o h)
  opened_thinking (in_thinking i) o h =
      (i, rw (if_true o.ctx.thinking_block_started o _ h.shows.1) h)

  pub emit_text_delta-Lands :
      (s : String) (tool : Bool) (o : Output)
      → Lands from tool o
      → Lands from (is_empty s && tool) (emit_text_delta s o)
  unfolding emit_text_delta read
  emit_text_delta-Lands s tool o h = elim (Bool-cases (is_empty s)) [
    | inl e ↦ rw e h
    | inr e ↦
        let thought = close_thinking_block-IsSound from h.block o h.sound in
        let left = leave_tool_block-IsSound from (without_thinking h.block) _ thought in
        let (i, opened) = opened_text h.block _ left in
        rw e (record {
          block = in_text i;
          sound =
              emit-IsSound from (in_text i) (in_text i) _ _ _ opened
                (rw (opened.shows.3, eq_int_refl i) refl) opened.started opened.shows;
          open_tool = refl;
        })
  ]

  pub emit_thinking_delta-Lands :
      (s : String) (tool : Bool) (o : Output)
      → Lands from tool o
      → Lands from (is_empty s && tool) (emit_thinking_delta s o)
  unfolding emit_thinking_delta read
  emit_thinking_delta-Lands s tool o h = elim (Bool-cases (is_empty s)) [
    | inl e ↦ rw e h
    | inr e ↦
        let said = leave_text_block-IsSound from h.block o h.sound in
        let left = leave_tool_block-IsSound from (without_text h.block) _ said in
        let (i, opened) = opened_thinking h.block _ left in
        rw e (record {
          block = in_thinking i;
          sound =
              emit-IsSound from (in_thinking i) (in_thinking i) _ _ _ opened
                (rw (opened.shows.3, eq_int_refl i) refl) opened.started opened.shows;
          open_tool = refl;
        })
  ]

  pub start_tool_call-Lands :
      (tool_call : OpenAiToolCall) (tool : Bool) (o : Output)
      → Lands from tool o
      → Lands from true (start_tool_call tool_call o)
  unfolding start_tool_call read
  start_tool_call-Lands tool_call tool o h =
      let thought = close_thinking_block-IsSound from h.block o h.sound in
      let said = leave_text_block-IsSound from (without_thinking h.block) _ thought in
      let called = leave_tool_block-IsSound from (without_text (without_thinking h.block)) _ said in
      let left =
        subst (λ b. IsSound from b (leave_tool_block (leave_text_block (close_thinking_block o))))
          (nothing_open h.block) called in
      record {
        block =
            in_tool
              (leave_tool_block (leave_text_block (close_thinking_block o))).ctx.content_index;
        sound =
            emit-IsSound from closed _ _ _ _ left refl left.started
              (left.shows.0, left.shows.1, refl, refl);
        open_tool = refl;
      }

  pub argue :
      (tool_call : OpenAiToolCall) (b : Block) (o : Output)
      → IsSound from b o
      → is_tool b ≡ true
      → is_empty tool_call.function.arguments ≡ false
      → Lands from true (add_arguments tool_call o)
  unfolding add_arguments open_tool_block read
  argue tool_call closed o h t e = absurd (ground arith)
  argue tool_call (in_text i) o h t e = absurd (ground arith)
  argue tool_call (in_thinking i) o h t e = absurd (ground arith)
  argue tool_call (in_tool i) o h t e =
      rw
        (
          if_false (is_empty tool_call.function.arguments) o _ e,
          if_true o.ctx.tool_block_started o _ h.shows.2,
        )
        (record {
          block = in_tool i;
          sound =
              emit-IsSound from (in_tool i) (in_tool i) o _ _ h (rw (h.shows.3, eq_int_refl i) refl)
                h.started h.shows;
          open_tool = refl;
        })
