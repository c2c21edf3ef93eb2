-- ===== src/Transform/ResponsesStream/Laws.antt =====
-- The end of a Responses stream (transformer/convert/claude_openai_responses_stream.rs).
use ai_open_router.Prelude.{
  ◌≡◌, refl, ap, ◌∙◌, Bool, true, false, not, ◌||◌, List, [], ◌∷◌, any, retain, Bool-cases, inl,
  inr, arith, if_not-false, eqb_iff,
}
use ai_open_router.Transform.Context.{ℤ, pos, negsuc, eq_int, StreamContext}
use ai_open_router.Transform.OpenAiStream.{Output, begin}
use ai_open_router.Transform.OpenAiStream.Reader.{eq_int_refl}
use ai_open_router.Transform.ResponsesStream.{
  close_open_index, insert_sorted, sort, close_indices, close_all_open_indices,
  finalize_openai_responses_stream_to_claude_done, has_ended,
  finalize_openai_responses_stream_to_claude,
}

abbrev member : ℤ → List ℤ → Bool
member index indices = any (eq_int index) indices

eq_int_sound : (a b : ℤ) → eq_int a b ≡ true → a ≡ b
unfolding eq_int
eq_int_sound (pos a) (pos b) h = ap pos ((eqb_iff a b).0 h)
eq_int_sound (pos a) (negsuc b) h = absurd (ground arith)
eq_int_sound (negsuc a) (pos b) h = absurd (ground arith)
eq_int_sound (negsuc a) (negsuc b) h = ap negsuc ((eqb_iff a b).0 h)

eq_int_comm : (a b : ℤ) → eq_int a b ≡ eq_int b a
unfolding eq_int
eq_int_comm (pos a) (pos b) = ground (arith, eqb_iff a b, eqb_iff b a)
eq_int_comm (pos a) (negsuc b) = refl
eq_int_comm (negsuc a) (pos b) = refl
eq_int_comm (negsuc a) (negsuc b) = ground (arith, eqb_iff a b, eqb_iff b a)

member-retain :
    (x index : ℤ) (indices : List ℤ)
    → member x (retain (λ other. not (eq_int index other)) indices) ≡ true
    → (member x indices ≡ true) × (eq_int index x ≡ false)
unfolding any retain
member-retain x index [] h = absurd (ground arith)
member-retain x index (other ∷ rest) h = elim (Bool-cases (eq_int index other)) [
  | inl e ↦ let (m, d) = member-retain x index rest (rw e at h) in ground arith
  | inr e ↦ elim (Bool-cases (eq_int x other)) [
    | inl s ↦ (ground arith, rw (eq_int_sound x other s) e)
    | inr s ↦ let (m, d) = member-retain x index rest (ground arith) in ground arith
  ]
]

-- What stays open after an index is closed was open, and is another one.
close_open_index-member :
    (x index : ℤ) (o : Output)
    → member x (close_open_index index o).ctx.responses_open_indices ≡ true
    → (member x o.ctx.responses_open_indices ≡ true) × (eq_int index x ≡ false)
unfolding close_open_index
close_open_index-member x index o h =
    elim (Bool-cases (member index o.ctx.responses_open_indices)) [
      | inl e ↦ member-retain x index o.ctx.responses_open_indices (rw (close_open_index, e) at h)
      | inr e ↦
          let still : member x o.ctx.responses_open_indices ≡ true =
            rw (if_not-false (member index o.ctx.responses_open_indices) o _ e) at h in
          elim (Bool-cases (eq_int index x)) [
            | inl s ↦ absurd (ground (arith, eq_int_sound index x s))
            | inr s ↦ (still, s)
          ]
    ]

close_indices-member :
    (x : ℤ) (indices : List ℤ) (o : Output)
    → member x (close_indices indices o).ctx.responses_open_indices ≡ true
    → (member x o.ctx.responses_open_indices ≡ true) × (member x indices ≡ false)
unfolding close_indices any
close_indices-member x [] o h = (h, refl)
close_indices-member x (index ∷ rest) o h =
    let (later, absent) = close_indices-member x rest (close_open_index index o) h in
    let (before, other) = close_open_index-member x index o later in
    (before, ground (arith, eq_int_comm x index))

member-insert_sorted :
    (x index : ℤ) (indices : List ℤ)
    → member x (insert_sorted index indices) ≡ (eq_int x index || member x indices)
unfolding any
member-insert_sorted x index [] = refl
member-insert_sorted x index (other ∷ rest) = ground (arith, member-insert_sorted x index rest)

member-sort : (x : ℤ) (indices : List ℤ) → member x (sort indices) ≡ member x indices
unfolding sort any
member-sort x [] = refl
member-sort x (index ∷ rest) =
    member-insert_sorted x index (sort rest) ∙ ap (λ m. eq_int x index || m) (member-sort x rest)

no_member : (indices : List ℤ) → ((x : ℤ) → member x indices ≡ true → ⊥) → indices ≡ []
unfolding any
no_member [] h = refl
no_member (index ∷ rest) h = absurd (h index (rw (eq_int_refl index) refl))

close_all-empty : (o : Output) → (close_all_open_indices o).ctx.responses_open_indices ≡ []
unfolding close_all_open_indices
close_all-empty o = no_member _ λ x m.
    let (before, absent) = close_indices-member x (sort o.ctx.responses_open_indices) o m in
    absurd (ground (arith, member-sort x o.ctx.responses_open_indices))

close_all-idle : (o : Output) → o.ctx.responses_open_indices ≡ [] → close_all_open_indices o ≡ o
unfolding close_all_open_indices close_indices sort
close_all-idle o h = ap (λ l. close_indices (sort l) o) h

-- A context that needs no further event.
record IsFinal (ctx : StreamContext) : Type 0 where
  empty : ctx.responses_open_indices ≡ []
  told : ctx.message_start_sent ≡ true → ctx.finish_reason_sent ≡ true

finalize-final :
    (ctx : StreamContext)
    → IsFinal ctx
    → (finalize_openai_responses_stream_to_claude_done ctx).result ≡ []
unfolding finalize_openai_responses_stream_to_claude_done
finalize-final ctx h = elim (Bool-cases ctx.message_start_sent) [
  | inl s ↦ rw (close_all-idle (begin ctx) h.empty, h.told s) refl
  | inr s ↦ elim (Bool-cases ctx.finish_reason_sent) [
    | inl f ↦ rw (close_all-idle (begin ctx) h.empty, f) refl
    | inr f ↦ rw (close_all-idle (begin ctx) h.empty, f, s) refl
  ]
]

done-IsFinal :
    (ctx : StreamContext) → IsFinal (finalize_openai_responses_stream_to_claude_done ctx).ctx
unfolding finalize_openai_responses_stream_to_claude_done
done-IsFinal ctx =
    let empty = close_all-empty (begin ctx) in
    elim (Bool-cases (close_all_open_indices (begin ctx)).ctx.finish_reason_sent) [
      | inl f ↦ rw f (record { empty = empty; told = λ _. refl })
      | inr f ↦ elim (Bool-cases (close_all_open_indices (begin ctx)).ctx.message_start_sent) [
        | inl s ↦ rw (f, s) (record { empty = empty; told = λ _. refl })
        | inr s ↦ rw (f, s) (record { empty = empty; told = λ t. absurd (ground arith) })
      ]
    ]

-- When a stream of the Responses API is finalized again, there is no event.
pub finalize_openai_responses_stream_to_claude-again :
    (ctx : StreamContext)
    → (finalize_openai_responses_stream_to_claude
        (finalize_openai_responses_stream_to_claude ctx).ctx).result
      ≡ []
unfolding finalize_openai_responses_stream_to_claude
finalize_openai_responses_stream_to_claude-again ctx = elim (Bool-cases (has_ended ctx)) [
  | inl e ↦ rw (e, e) refl
  | inr e ↦
      let last = (finalize_openai_responses_stream_to_claude_done ctx).ctx in
      elim (Bool-cases (has_ended last)) [
        | inl f ↦ rw (e, f) refl
        | inr f ↦ rw (e, f) (finalize-final last (done-IsFinal ctx))
      ]
]
