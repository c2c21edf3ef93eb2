-- ===== src/Pipeline/Relay/Transform.antt =====
-- The conversion of the events of a read in proxy/pipeline.rs.
use ai_open_router.Prelude.{
  ℕ, String, ◌≡◌, refl, ap, sym, ◌∙◌, true, none, some, List, [], ◌∷◌, ◌++◌, Result, ok, err,
  concat, Option-cases, inl, inr, arith, ◌⊎◌,
}
use ai_open_router.Transform.Context.{StreamContext}
use ai_open_router.Pipeline.Relay.{
  Setup, Relay, after_event, see_converted, push_converted, transform_events, fail,
}
use ai_open_router.Pipeline.Relay.Events.{shift, Runs, translate, fail_failed}

pub Result-cases :
    (r : Result String (List ℕ))
    → ((message : String) × (r ≡ err message)) ⊎ ((bytes : List ℕ) × (r ≡ ok bytes))
Result-cases (err message) = inl (message, refl)
Result-cases (ok bytes) = inr (bytes, refl)

module _ (setup : Setup) where
  concat-push :
      (converted : List ℕ) (chunks : List (List ℕ))
      → concat (push_converted setup converted chunks) ≡ converted ++ concat chunks
  concat-push [] chunks = refl
  concat-push (b ∷ bytes) chunks = refl

  pub translate-ok :
      (event : List ℕ) (events : List (List ℕ)) (ctx : StreamContext) (converted : List ℕ)
      → (setup.transform_sse_event event ctx).1 ≡ ok converted
      → translate setup (event ∷ events) ctx
        ≡ shift converted (translate setup events (setup.transform_sse_event event ctx).0)
  unfolding translate
  translate-ok event events ctx converted e = rw (translate, e) refl

  pub translate-err :
      (event : List ℕ) (events : List (List ℕ)) (ctx : StreamContext) (message : String)
      → (setup.transform_sse_event event ctx).1 ≡ err message
      → translate setup (event ∷ events) ctx ≡ none
  unfolding translate
  translate-err event events ctx message e = rw (translate, e) refl

  pub transform_events-ok :
      (event : List ℕ) (events : List (List ℕ)) (s : Relay) (converted : List ℕ)
      → (setup.transform_sse_event event s.stream_ctx).1 ≡ ok converted
      → transform_events setup (event ∷ events) s ≡ (
        (transform_events setup events
            (see_converted setup converted (after_event setup event s))).0,
        push_converted setup converted
            (transform_events setup events
              (see_converted setup converted (after_event setup event s))).1,
      )
  unfolding transform_events
  transform_events-ok event events s converted e = rw (transform_events, e) refl

  pub transform_events-err :
      (event : List ℕ) (events : List (List ℕ)) (s : Relay) (message : String)
      → (setup.transform_sse_event event s.stream_ctx).1 ≡ err message
      → transform_events setup (event ∷ events) s
        ≡ (fail setup true "stream transform failed" (after_event setup event s), [])
  unfolding transform_events
  transform_events-err event events s message e = rw (transform_events, e) refl

  pub after_event-Runs :
      {ctx : StreamContext} (event : List ℕ) (pending received converted : List ℕ) (s : Relay)
      → Runs ctx pending received s
      → Runs
          (setup.transform_sse_event event s.stream_ctx).0
          pending
          received
          (see_converted setup converted (after_event setup event s))
  after_event-Runs event pending received [] s h = record {
    ctx_is = refl;
    pending_is = h.pending_is;
    received_is = h.received_is;
    not_failed = h.not_failed;
    not_closed = h.not_closed;
    not_probed = h.not_probed;
  }
  after_event-Runs event pending received (b ∷ converted) s h = record {
    ctx_is = refl;
    pending_is = h.pending_is;
    received_is = h.received_is;
    not_failed = h.not_failed;
    not_closed = h.not_closed;
    not_probed = h.not_probed;
  }

  no_translation :
      (event : List ℕ) (events : List (List ℕ)) (ctx : StreamContext) (message : String) (s : Relay)
      → {pending received : List ℕ} → Runs ctx pending received s
      → (setup.transform_sse_event event s.stream_ctx).1 ≡ err message
      → (r : StreamContext × List ℕ) → translate setup (event ∷ events) ctx ≡ some r
      → ⊥
  no_translation event events ctx message s h e r k =
      let none_is = translate-err event events s.stream_ctx message e in
      let there = ap (translate setup (event ∷ events)) h.ctx_is ∙ k in ground arith

  translate-split :
      (event : List ℕ) (events : List (List ℕ)) (ctx last : StreamContext) (out converted : List ℕ)
      (s : Relay)
      → {pending received : List ℕ} → Runs ctx pending received s
      → (setup.transform_sse_event event s.stream_ctx).1 ≡ ok converted
      → translate setup (event ∷ events) ctx ≡ some (last, out)
      → (more : List ℕ) × (translate setup events (setup.transform_sse_event event s.stream_ctx).0
          ≡ some (last, more))
        × (converted ++ more ≡ out)
  translate-split event events ctx last out converted s h e k =
      let next = (setup.transform_sse_event event s.stream_ctx).0 in
      let there =
        sym (translate-ok event events s.stream_ctx converted e)
        ∙ ap (translate setup (event ∷ events)) h.ctx_is
        ∙ k in
      elim (Option-cases (translate setup events next)) [
        | inl missing ↦ absurd (ground arith)
        | inr ((c, more), found) ↦ (more, ground arith, ground arith)
      ]

  pub translate-none :
      (event : List ℕ) (events : List (List ℕ)) (ctx : StreamContext) (converted : List ℕ)
      (s : Relay)
      → {pending received : List ℕ} → Runs ctx pending received s
      → (setup.transform_sse_event event s.stream_ctx).1 ≡ ok converted
      → translate setup (event ∷ events) ctx ≡ none
      → translate setup events (setup.transform_sse_event event s.stream_ctx).0 ≡ none
  translate-none event events ctx converted s h e k =
      let next = (setup.transform_sse_event event s.stream_ctx).0 in
      let there =
        sym (translate-ok event events s.stream_ctx converted e)
        ∙ ap (translate setup (event ∷ events)) h.ctx_is
        ∙ k in
      elim (Option-cases (translate setup events next)) [
        | inl missing ↦ missing
        | inr (r, found) ↦ absurd (ground arith)
      ]

  -- When all events convert, the chunks are what they convert to.
  pub transform_events-Runs :
      (events : List (List ℕ)) (ctx last : StreamContext) (out pending received : List ℕ)
      (s : Relay)
      → Runs ctx pending received s
      → translate setup events ctx ≡ some (last, out)
      → Runs last pending received (transform_events setup events s).0
        × (concat (transform_events setup events s).1 ≡ out)
  unfolding transform_events translate
  transform_events-Runs [] ctx last out pending received s h k = ground arith
  transform_events-Runs (event ∷ events) ctx last out pending received s h k =
      elim (Result-cases (setup.transform_sse_event event s.stream_ctx).1) [
        | inl (message, e) ↦ absurd (no_translation event events ctx message s h e (last, out) k)
        | inr (converted, e) ↦
            let (more, inner, split) =
              translate-split event events ctx last out converted s h e k in
            let next = (setup.transform_sse_event event s.stream_ctx).0 in
            let (runs, same) =
              transform_events-Runs events next last more pending received
                (see_converted setup converted (after_event setup event s))
                (after_event-Runs event pending received converted s h) inner in
            rw (transform_events-ok event events s converted e)
              (runs, concat-push converted _ ∙ ap (λ rest. converted ++ rest) same ∙ split)
      ]

  -- When one fails, the stream has failed.
  pub transform_events-fails :
      (events : List (List ℕ)) (ctx : StreamContext) (pending received : List ℕ) (s : Relay)
      → Runs ctx pending received s
      → translate setup events ctx ≡ none
      → (transform_events setup events s).0.stream_failed ≡ true
  unfolding transform_events translate
  transform_events-fails [] ctx pending received s h k = absurd (ground arith)
  transform_events-fails (event ∷ events) ctx pending received s h k =
      elim (Result-cases (setup.transform_sse_event event s.stream_ctx).1) [
        | inl (message, e) ↦
            rw (transform_events-err event events s message e)
              (fail_failed setup true "stream transform failed" (after_event setup event s))
        | inr (converted, e) ↦
            let next = (setup.transform_sse_event event s.stream_ctx).0 in
            rw (transform_events-ok event events s converted e) (
              transform_events-fails events next pending received
                (see_converted setup converted (after_event setup event s))
                (after_event-Runs event pending received converted s h)
                (translate-none event events ctx converted s h e k))
      ]
