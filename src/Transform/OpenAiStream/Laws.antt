-- ===== src/Transform/OpenAiStream/Laws.antt =====
-- Whole streams through transformer/convert/claude_openai.rs.
use ai_open_router.Prelude.{
  String, ◌≡◌, refl, sym, Bool, true, not, ◌&&◌, ◌||◌, Option, none, some, is_some, List, [], ◌∷◌,
  ◌∙◌, Bool-cases, inl, inr, arith, if_true, if_false, subst, get_or,
}
use ai_open_router.Text.{is_empty}
use ai_open_router.Transform.Context.{OpenAiToolCall, OpenAiUsage, OpenAiStreamChoice}
use ai_open_router.Transform.OpenAiStream.{
  Output, emit_text_delta, emit_thinking_delta, add_arguments, emit_tool_call, emit_tool_calls,
  finish, finish_if, emit_usage, with_text, tool_calls_of, is_usage_only, emit_choice, emit_choices,
}
use ai_open_router.Transform.OpenAiStream.Reader.{Block, closed, Reader, read}
use ai_open_router.Transform.OpenAiStream.Blocks.{IsSound, emit-IsSound, close_all-IsSound}
use ai_open_router.Transform.OpenAiStream.Deltas.{
  Lands, emit_text_delta-Lands, emit_thinking_delta-Lands, start_tool_call-Lands, argue,
}

-- Arguments belong to a tool call that is open, or come with an id.
abbrev pub announced : Bool → List OpenAiToolCall → Bool
announced tool [] = true
announced tool (tool_call ∷ tool_calls) =
    (is_empty tool_call.function.arguments || (not (is_empty tool_call.id) || tool))
    && announced (not (is_empty tool_call.id) || tool) tool_calls

-- Some block is open, or none.
abbrev pub Settles : Reader → Output → Type 0
Settles from o = (b : Block) × IsSound from b o

module _ (from : Reader) where
  add_arguments-Lands :
      (tool_call : OpenAiToolCall) (tool : Bool) (o : Output)
      → Lands from tool o
      → (is_empty tool_call.function.arguments || tool) ≡ true
      → Lands from tool (add_arguments tool_call o)
  unfolding add_arguments
  add_arguments-Lands tool_call tool o h k =
      elim (Bool-cases (is_empty tool_call.function.arguments)) [
        | inl e ↦ rw (if_true (is_empty tool_call.function.arguments) o _ e) h
        | inr e ↦
            let is_open : tool ≡ true = ground arith in
            subst (λ t. Lands from t (add_arguments tool_call o)) (sym is_open)
              (argue from tool_call h.block o h.sound (h.open_tool ∙ is_open) e)
      ]

  emit_tool_call-Lands :
      (tool_call : OpenAiToolCall) (tool : Bool) (o : Output)
      → Lands from tool o
      → (is_empty tool_call.function.arguments || (not (is_empty tool_call.id) || tool)) ≡ true
      → Lands from (not (is_empty tool_call.id) || tool) (emit_tool_call tool_call o)
  unfolding emit_tool_call
  emit_tool_call-Lands tool_call tool o h k = elim (Bool-cases (is_empty tool_call.id)) [
    | inl e ↦ rw e (add_arguments-Lands tool_call tool o h (rw e at k))
    | inr e ↦ rw e (
        add_arguments-Lands tool_call true _ (start_tool_call-Lands from tool_call tool o h)
          (rw e at k))
  ]

  emit_tool_calls-Settles :
      (tool_calls : List OpenAiToolCall) (tool : Bool) (o : Output)
      → Lands from tool o
      → announced tool tool_calls ≡ true
      → Settles from (emit_tool_calls tool_calls o)
  unfolding emit_tool_calls
  emit_tool_calls-Settles [] tool o h k = (h.block, h.sound)
  emit_tool_calls-Settles (tool_call ∷ tool_calls) tool o h k =
      emit_tool_calls-Settles tool_calls (not (is_empty tool_call.id) || tool)
        (emit_tool_call tool_call o) (emit_tool_call-Lands tool_call tool o h (ground arith))
        (ground arith)

  finish-Settles :
      (finish_reason : String) (o : Output) → Settles from o → Settles from (finish finish_reason o)
  unfolding finish read
  finish-Settles finish_reason o (b, h) =
      elim (Bool-cases (is_empty finish_reason || o.ctx.finish_reason_sent)) [
        | inl e ↦ rw (if_true (is_empty finish_reason || o.ctx.finish_reason_sent) o _ e) (b, h)
        | inr e ↦
            let shut = close_all-IsSound from b o h in
            rw (if_false (is_empty finish_reason || o.ctx.finish_reason_sent) o _ e)
              (closed, emit-IsSound from closed closed _ _ _ shut refl shut.started shut.shows)
      ]

  finish_if-Settles :
      (finish_reason : Option String) (o : Output)
      → Settles from o
      → Settles from (finish_if finish_reason o)
  finish_if-Settles none o h = h
  finish_if-Settles (some finish_reason) o h = finish-Settles finish_reason o h

  emit_usage-Settles :
      (usage : Option OpenAiUsage) (o : Output) → Settles from o → Settles from (emit_usage usage o)
  unfolding read
  emit_usage-Settles none o h = h
  emit_usage-Settles (some usage) o (b, h) =
      (b, emit-IsSound from b b o _ _ h refl h.started h.shows)

  thinking-Lands :
      (s : Option String) (tool : Bool) (o : Output)
      → Lands from tool o
      → Lands from (is_empty (get_or s "") && tool) (with_text emit_thinking_delta s o)
  thinking-Lands none tool o h = h
  thinking-Lands (some s) tool o h = emit_thinking_delta-Lands from s tool o h

  text-Lands :
      (s : Option String) (tool : Bool) (o : Output)
      → Lands from tool o
      → Lands from (is_empty (get_or s "") && tool) (with_text emit_text_delta s o)
  text-Lands none tool o h = h
  text-Lands (some s) tool o h = emit_text_delta-Lands from s tool o h

-- The tool calls of a chunk are announced, seen from a tool block that is open or not.
abbrev pub choice_announced : Bool → OpenAiStreamChoice → Bool
choice_announced tool choice =
    announced
      (is_empty (get_or choice.delta.content "")
        && (is_empty (get_or choice.delta.reasoning_content "") && tool))
      (tool_calls_of choice.delta)

abbrev pub choices_announced : Bool → List OpenAiStreamChoice → Bool
choices_announced tool [] = true
choices_announced tool (choice ∷ choices) = choice_announced tool choice

module _ (from : Reader) where
  emit_choice-Settles :
      (choice : OpenAiStreamChoice) (tool : Bool) (o : Output)
      → Lands from tool o
      → choice_announced tool choice ≡ true
      → Settles from (emit_choice choice o)
  unfolding emit_choice
  emit_choice-Settles choice tool o h k =
      let thought = thinking-Lands from choice.delta.reasoning_content tool o h in
      let said = text-Lands from choice.delta.content _ _ thought in
      finish_if-Settles from choice.finish_reason _
        (emit_tool_calls-Settles from (tool_calls_of choice.delta) _ _ said k)

  pub emit_choices-Settles :
      (choices : List OpenAiStreamChoice) (usage : Option OpenAiUsage) (tool : Bool) (o : Output)
      → Lands from tool o
      → choices_announced tool choices ≡ true
      → Settles from (emit_choices choices usage o)
  unfolding is_usage_only
  emit_choices-Settles [] usage tool o h k = emit_usage-Settles from usage o (h.block, h.sound)
  emit_choices-Settles (choice ∷ choices) usage tool o h k =
      let only = is_some usage && is_usage_only choice in
      let bare = emit_usage-Settles from usage o (h.block, h.sound) in
      let full = emit_usage-Settles from usage _ (emit_choice-Settles choice tool o h k) in
      elim (Bool-cases only) [
        | inl e ↦
            rw (if_true only (emit_usage usage o) (emit_usage usage (emit_choice choice o)) e) bare
        | inr e ↦
            rw (if_false only (emit_usage usage o) (emit_usage usage (emit_choice choice o)) e) full
      ]
