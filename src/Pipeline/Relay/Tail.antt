-- ===== src/Pipeline/Relay/Tail.antt =====
-- The end of a stream with bytes after its last event, in proxy/pipeline.rs.
use ai_open_router.Prelude.{
  ℕ, String, ◌≡◌, refl, ap, sym, ◌∙◌, true, false, not, ◌&&◌, none, some, List, [], ◌∷◌, ◌++◌,
  is_nil, ok, err, Bool-cases, inl, inr, arith, if_true, if_false, append_assoc, subst,
}
use mathlib.Core.List.{append-nil}
use ai_open_router.Transform.Context.{StreamContext}
use ai_open_router.Pipeline.Relay.{
  Setup, Relay, requires_buffer, after_tail, send_tail, transform_tail, send_end, on_end,
}
use ai_open_router.Pipeline.Relay.Events.{Runs, translate, fail_failed}
use ai_open_router.Pipeline.Relay.Transform.{Result-cases, translate-ok, translate-err}
use ai_open_router.Pipeline.Relay.End.{
  Delivers, finalizer, translate_end, send_end-Delivers, send_end-failed, send_end-closed,
  transform_tail-ok, transform_tail-err, send_tail-Runs,
}

module _ (setup : Setup) where
  on_end-tail :
      (s : Relay) (b : ℕ) (bytes : List ℕ)
      → requires_buffer setup ≡ true
      → s.sse_pending ≡ (b ∷ bytes)
      → on_end setup s ≡ send_end setup (transform_tail setup s)
  unfolding on_end
  on_end-tail s b bytes q e = ap (send_end setup) (
      if_true (requires_buffer setup && not (is_nil s.sse_pending)) (transform_tail setup s) s
        (rw (q, e) refl))

  on_end-no_tail : (s : Relay) → s.sse_pending ≡ [] → on_end setup s ≡ send_end setup s
  unfolding on_end
  on_end-no_tail s e = ap (send_end setup) (
      if_false (requires_buffer setup && not (is_nil s.sse_pending)) (transform_tail setup s) s
        (rw e (ground arith)))

  after_tail-Runs :
      (ctx : StreamContext) (pending received : List ℕ) (s : Relay)
      → Runs ctx pending received s
      → Runs
          (setup.transform_sse_event s.sse_pending s.stream_ctx).0
          []
          received
          (after_tail setup s)
  after_tail-Runs ctx pending received s h = record {
    ctx_is = refl;
    pending_is = refl;
    received_is = h.received_is;
    not_failed = h.not_failed;
    not_closed = h.not_closed;
    not_probed = h.not_probed;
  }

  translate_end-err :
      (b : ℕ) (bytes : List ℕ) (ctx : StreamContext) (message : String)
      → (setup.transform_sse_event (b ∷ bytes) ctx).1 ≡ err message
      → translate_end setup (b ∷ bytes) ctx ≡ none
  unfolding translate_end
  translate_end-err b bytes ctx message e =
      rw (translate-err setup (b ∷ bytes) [] ctx message e) refl

  translate_end-ok :
      (b : ℕ) (bytes : List ℕ) (ctx : StreamContext) (converted : List ℕ)
      → (setup.transform_sse_event (b ∷ bytes) ctx).1 ≡ ok converted
      → translate_end setup (b ∷ bytes) ctx
        ≡ some (converted ++ finalizer setup (setup.transform_sse_event (b ∷ bytes) ctx).0)
  unfolding translate_end translate
  translate_end-ok b bytes ctx converted e =
      rw (translate-ok setup (b ∷ bytes) [] ctx converted e, append-nil converted) refl

  tail-Delivers :
      (b : ℕ) (bytes : List ℕ) (ctx : StreamContext) (received : List ℕ) (s : Relay)
      → Runs ctx (b ∷ bytes) received s
      → (send_end setup (transform_tail setup s)).downstream_closed ≡ false
      → Delivers
          (translate_end setup (b ∷ bytes) s.stream_ctx)
          received
          (send_end setup (transform_tail setup s))
  tail-Delivers b bytes ctx received s h k =
      elim (Result-cases (setup.transform_sse_event s.sse_pending s.stream_ctx).1) [
        | inl (message, e) ↦
            let failed = send_end-failed setup (transform_tail setup s) (
              ap (λ r. r.stream_failed) (transform_tail-err setup s message e)
              ∙ fail_failed setup true "stream transform failed" (after_tail setup s)) in
            rw (translate_end-err b bytes s.stream_ctx message (rw h.pending_is at e)) failed
        | inr (converted, e) ↦
            let t = send_tail setup converted (after_tail setup s) in
            let go = transform_tail-ok setup s converted e in
            let open_end = sym (ap (λ r. (send_end setup r).downstream_closed) go) ∙ k in
            elim (Bool-cases t.downstream_closed) [
              | inl c ↦ absurd (ground (arith, send_end-closed setup t c))
              | inr c ↦
                  let next = (setup.transform_sse_event s.sse_pending s.stream_ctx).0 in
                  let runs =
                    send_tail-Runs setup next received converted (after_tail setup s)
                      (after_tail-Runs ctx (b ∷ bytes) received s h) c in
                  let (fine, bytes_are) =
                    send_end-Delivers setup next [] (received ++ converted) t runs open_end in
                  let spec =
                    translate_end-ok b bytes s.stream_ctx converted (rw h.pending_is at e)
                    ∙ ap
                        (λ p. some (
                          converted
                          ++ finalizer setup (setup.transform_sse_event p s.stream_ctx).0))
                        (sym h.pending_is) in
                  rw (spec, go)
                    (fine, bytes_are ∙ append_assoc received converted (finalizer setup next))
            ]
      ]

  -- The end of a stream delivers what is left of it, with the finalizer.
  pub on_end-Delivers :
      (ctx : StreamContext) (pending received : List ℕ) (s : Relay)
      → Runs ctx pending received s
      → requires_buffer setup ≡ true
      → (on_end setup s).downstream_closed ≡ false
      → Delivers (translate_end setup pending ctx) received (on_end setup s)
  unfolding translate_end translate
  on_end-Delivers ctx [] received s h q k =
      let go = on_end-no_tail s h.pending_is in
      subst (Delivers (translate_end setup [] ctx) received) (sym go)
        (send_end-Delivers setup ctx [] received s h (sym (ap (λ r. r.downstream_closed) go) ∙ k))
  on_end-Delivers ctx (b ∷ bytes) received s h q k =
      let go = on_end-tail s b bytes q h.pending_is in
      subst (λ r. Delivers (translate_end setup (b ∷ bytes) ctx) received r) (sym go)
        (subst
          (λ c.
            Delivers (translate_end setup (b ∷ bytes) c) received
              (send_end setup (transform_tail setup s)))
          h.ctx_is
          (tail-Delivers b bytes ctx received s h (sym (ap (λ r. r.downstream_closed) go) ∙ k)))
