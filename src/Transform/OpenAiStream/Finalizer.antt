-- ===== src/Transform/OpenAiStream/Finalizer.antt =====
-- transformer/convert/claude_openai.rs, `finalize_openai_stream_to_claude`, when it is called again.
use ai_open_router.Prelude.{
  [], ◌∷◌, ◌≡◌, refl, sym, ap, ◌∙◌, true, Bool-cases, inl, inr, arith, if◌then◌else◌,
}
use ai_open_router.Transform.Context.{StreamContext}
use ai_open_router.Transform.OpenAiStream.{
  Output, close_text_block, close_thinking_block, close_tool_block, close_all, finalize, begin,
  finalize_openai_stream_to_claude, message_stop,
}
use ai_open_router.Transform.OpenAiStream.Reader.{closed}
use ai_open_router.Transform.OpenAiStream.Blocks.{
  Shows, close_text_block-idle, close_thinking_block-idle, close_tool_block-idle,
}

close_all-Shows : (o : Output) → Shows closed (close_all o).ctx
unfolding close_all close_text_block close_thinking_block close_tool_block
close_all-Shows o = ground arith

close_all-started : (o : Output) → (close_all o).ctx.message_start_sent ≡ o.ctx.message_start_sent
unfolding close_all close_text_block close_thinking_block close_tool_block
close_all-started o = ground arith

close_all-idle : (o : Output) → Shows closed o.ctx → close_all o ≡ o
unfolding close_all
close_all-idle o h =
    ap (λ p. close_tool_block (close_text_block p)) (close_thinking_block-idle o h.1)
    ∙ ap close_tool_block (close_text_block-idle o h.0)
    ∙ close_tool_block-idle o h.2

-- A context that a finalizer leaves.
record IsFinal (ctx : StreamContext) : Type 0 where
  shows : Shows closed ctx
  told : ctx.message_start_sent ≡ true → ctx.finish_reason_sent ≡ true

finalize-IsFinal :
    (o : Output)
    → IsFinal (finalize o).ctx × ((finalize o).ctx.message_start_sent ≡ o.ctx.message_start_sent)
unfolding finalize
finalize-IsFinal o =
    let shows = close_all-Shows o in
    let started = close_all-started o in
    elim (Bool-cases (close_all o).ctx.message_start_sent) [
      | inl s ↦ elim (Bool-cases (close_all o).ctx.finish_reason_sent) [
        | inl f ↦ rw (s, f, s) (record { shows = shows; told = λ _. f }, started)
        | inr f ↦ rw (s, f) (record { shows = shows; told = λ _. refl }, sym s ∙ started)
      ]
      | inr s ↦ rw (s, s) (record { shows = shows; told = λ t. absurd (ground arith) }, started)
    ]

finalize-final :
    (ctx : StreamContext)
    → IsFinal ctx
    → (finalize (begin ctx)).result ≡ (if ctx.message_start_sent then message_stop ∷ [] else [])
unfolding finalize
finalize-final ctx h = elim (Bool-cases ctx.message_start_sent) [
  | inl s ↦ rw (close_all-idle (begin ctx) h.shows, s, h.told s) refl
  | inr s ↦ rw (close_all-idle (begin ctx) h.shows, s) refl
]

-- When a chat stream is finalized again, the only event is one more message_stop, if the message
-- had started.
pub finalize_openai_stream_to_claude-again :
    (ctx : StreamContext)
    → (finalize_openai_stream_to_claude (finalize_openai_stream_to_claude ctx).ctx).result
      ≡ (if ctx.message_start_sent then message_stop ∷ [] else [])
unfolding finalize_openai_stream_to_claude
finalize_openai_stream_to_claude-again ctx =
    let (final, started) = finalize-IsFinal (begin ctx) in
    finalize-final (finalize (begin ctx)).ctx final
    ∙ ap (λ s. if s then message_stop ∷ [] else []) started
