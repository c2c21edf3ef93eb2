-- ===== src/Transform/OpenAiStream/Blocks.antt =====
-- The content blocks of transformer/convert/claude_openai.rs as a reader sees them: what each step
-- of the conversion leaves open.
use ai_open_router.Prelude.{
  ◌≡◌, refl, true, false, some, [], ◌∷◌, ◌++◌, if_not-false, if_not-true, if_false, subst, if_true,
}
use ai_open_router.Transform.Context.{StreamContext, add_one}
use ai_open_router.Transform.Events.{ClaudeEvent, content_block_stop}
use ai_open_router.Transform.OpenAiStream.{
  Output, close_text_block, close_thinking_block, close_tool_block, next_index, leave_text_block,
  leave_tool_block, close_all,
}
use ai_open_router.Transform.OpenAiStream.Reader.{
  Block, closed, in_text, in_thinking, in_tool, Reader, reading, read, read_all, eq_int_refl,
  read_all-push,
}

-- The flags of a context, and the index of its open block.
abbrev pub Shows : Block → StreamContext → Type 0
Shows closed ctx =
    (ctx.content_block_started ≡ false)
    × (ctx.thinking_block_started ≡ false)
    × (ctx.tool_block_started ≡ false)
Shows (in_text i) ctx =
    (ctx.content_block_started ≡ true)
    × (ctx.thinking_block_started ≡ false)
    × (ctx.tool_block_started ≡ false)
    × (ctx.content_index ≡ i)
Shows (in_thinking i) ctx =
    (ctx.content_block_started ≡ false)
    × (ctx.thinking_block_started ≡ true)
    × (ctx.tool_block_started ≡ false)
    × (ctx.thinking_index ≡ i)
Shows (in_tool i) ctx =
    (ctx.content_block_started ≡ false)
    × (ctx.thinking_block_started ≡ false)
    × (ctx.tool_block_started ≡ true)
    × (ctx.tool_index ≡ i)

-- A reader of the events so far is in the block that the context shows.
pub record IsSound (from : Reader) (b : Block) (o : Output) : Type 0 where
  pub reads : read_all from o.result ≡ some (reading b)
  pub started : o.ctx.message_start_sent ≡ true
  pub shows : Shows b o.ctx

-- An event that the reader accepts.
pub emit-IsSound :
    (from : Reader) (b next : Block) (o : Output) (ctx : StreamContext) (event : ClaudeEvent)
    → IsSound from b o
    → read (reading b) event ≡ some (reading next)
    → ctx.message_start_sent ≡ true
    → Shows next ctx
    → IsSound from next (record { ctx = ctx; result = o.result ++ event ∷ [] })
emit-IsSound from b next o ctx event h accepted started shows = record {
  reads = read_all-push from (reading b) (reading next) o.result event h.reads accepted;
  started = started;
  shows = shows;
}

abbrev pub without_text : Block → Block
without_text (in_text i) = closed
without_text b = b

abbrev pub without_thinking : Block → Block
without_thinking (in_thinking i) = closed
without_thinking b = b

abbrev pub without_tool : Block → Block
without_tool (in_tool i) = closed
without_tool b = b

pub nothing_open : (b : Block) → without_tool (without_text (without_thinking b)) ≡ closed
nothing_open closed = refl
nothing_open (in_text i) = refl
nothing_open (in_thinking i) = refl
nothing_open (in_tool i) = refl

-- Closing a block that is not open changes nothing.
pub close_text_block-idle :
    (o : Output) → o.ctx.content_block_started ≡ false → close_text_block o ≡ o
unfolding close_text_block
close_text_block-idle o e = if_not-false _ o _ e

pub close_thinking_block-idle :
    (o : Output) → o.ctx.thinking_block_started ≡ false → close_thinking_block o ≡ o
unfolding close_thinking_block
close_thinking_block-idle o e = if_not-false _ o _ e

pub close_tool_block-idle : (o : Output) → o.ctx.tool_block_started ≡ false → close_tool_block o ≡ o
unfolding close_tool_block
close_tool_block-idle o e = if_not-false _ o _ e

module _ (from : Reader) where
  pub close_text_block-IsSound :
      (b : Block) (o : Output)
      → IsSound from b o
      → IsSound from (without_text b) (close_text_block o)
  unfolding close_text_block read
  close_text_block-IsSound closed o h = rw (close_text_block-idle o h.shows.0) h
  close_text_block-IsSound (in_thinking i) o h = rw (close_text_block-idle o h.shows.0) h
  close_text_block-IsSound (in_tool i) o h = rw (close_text_block-idle o h.shows.0) h
  close_text_block-IsSound (in_text i) o h =
      rw (if_not-true o.ctx.content_block_started o _ h.shows.0) (
        emit-IsSound from (in_text i) closed o (record o.ctx { content_block_started = false })
          (content_block_stop o.ctx.content_index) h (rw (h.shows.3, eq_int_refl i) refl) h.started
          (refl, h.shows.1, h.shows.2))

  pub close_thinking_block-IsSound :
      (b : Block) (o : Output)
      → IsSound from b o
      → IsSound from (without_thinking b) (close_thinking_block o)
  unfolding close_thinking_block read
  close_thinking_block-IsSound closed o h = rw (close_thinking_block-idle o h.shows.1) h
  close_thinking_block-IsSound (in_text i) o h = rw (close_thinking_block-idle o h.shows.1) h
  close_thinking_block-IsSound (in_tool i) o h = rw (close_thinking_block-idle o h.shows.1) h
  close_thinking_block-IsSound (in_thinking i) o h =
      rw (if_not-true o.ctx.thinking_block_started o _ h.shows.1) (
        emit-IsSound from (in_thinking i) closed o
          (record o.ctx {
            thinking_block_started = false;
            content_index = add_one o.ctx.thinking_index;
          })
          (content_block_stop o.ctx.thinking_index) h (rw (h.shows.3, eq_int_refl i) refl) h.started
          (h.shows.0, refl, h.shows.2))

  pub close_tool_block-IsSound :
      (b : Block) (o : Output)
      → IsSound from b o
      → IsSound from (without_tool b) (close_tool_block o)
  unfolding close_tool_block read
  close_tool_block-IsSound closed o h = rw (close_tool_block-idle o h.shows.2) h
  close_tool_block-IsSound (in_text i) o h = rw (close_tool_block-idle o h.shows.2) h
  close_tool_block-IsSound (in_thinking i) o h = rw (close_tool_block-idle o h.shows.2) h
  close_tool_block-IsSound (in_tool i) o h =
      rw (if_not-true o.ctx.tool_block_started o _ h.shows.2) (
        emit-IsSound from (in_tool i) closed o (record o.ctx { tool_block_started = false })
          (content_block_stop o.ctx.tool_index) h (rw (h.shows.3, eq_int_refl i) refl) h.started
          (h.shows.0, h.shows.1, refl))

  -- A block that is not a text block has no use for `content_index`.
  reindex :
      (b : Block) (o : Output)
      → IsSound from (without_text b) o
      → IsSound from (without_text b) (next_index o)
  reindex closed o h = record { reads = h.reads; started = h.started; shows = h.shows }
  reindex (in_text i) o h = record { reads = h.reads; started = h.started; shows = h.shows }
  reindex (in_thinking i) o h = record { reads = h.reads; started = h.started; shows = h.shows }
  reindex (in_tool i) o h = record { reads = h.reads; started = h.started; shows = h.shows }

  pub leave_text_block-IsSound :
      (b : Block) (o : Output)
      → IsSound from b o
      → IsSound from (without_text b) (leave_text_block o)
  unfolding leave_text_block
  leave_text_block-IsSound closed o h = rw (if_false o.ctx.content_block_started _ o h.shows.0) h
  leave_text_block-IsSound (in_thinking i) o h =
      rw (if_false o.ctx.content_block_started _ o h.shows.0) h
  leave_text_block-IsSound (in_tool i) o h =
      rw (if_false o.ctx.content_block_started _ o h.shows.0) h
  leave_text_block-IsSound (in_text i) o h =
      rw (if_true o.ctx.content_block_started _ o h.shows.0)
        (reindex (in_text i) (close_text_block o) (close_text_block-IsSound (in_text i) o h))

  pub leave_tool_block-IsSound :
      (b : Block) (o : Output)
      → IsSound from b o
      → IsSound from (without_tool b) (leave_tool_block o)
  unfolding leave_tool_block
  leave_tool_block-IsSound closed o h = rw (if_false o.ctx.tool_block_started _ o h.shows.2) h
  leave_tool_block-IsSound (in_text i) o h = rw (if_false o.ctx.tool_block_started _ o h.shows.2) h
  leave_tool_block-IsSound (in_thinking i) o h =
      rw (if_false o.ctx.tool_block_started _ o h.shows.2) h
  leave_tool_block-IsSound (in_tool i) o h =
      rw (if_true o.ctx.tool_block_started _ o h.shows.2)
        (reindex closed (close_tool_block o) (close_tool_block-IsSound (in_tool i) o h))

  pub close_all-IsSound :
      (b : Block) (o : Output) → IsSound from b o → IsSound from closed (close_all o)
  unfolding close_all
  close_all-IsSound b o h =
      let thought = close_thinking_block-IsSound b o h in
      let said = close_text_block-IsSound (without_thinking b) (close_thinking_block o) thought in
      let called = close_tool_block-IsSound (without_text (without_thinking b)) _ said in
      subst (λ last. IsSound from last (close_all o)) (nothing_open b) called
