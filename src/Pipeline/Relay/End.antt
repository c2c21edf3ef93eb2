-- ===== src/Pipeline/Relay/End.antt =====
-- The end of a stream in proxy/pipeline.rs: the bytes after the last event, and the finalizer.
use ai_open_router.Prelude.{
  ℕ, String, ◌≡◌, refl, ap, sym, ◌∙◌, true, false, Option, none, some, List, [], ◌∷◌, ◌++◌,
  if◌then◌else◌, is_nil, ok, err, ◌>>=◌, arith, if_true, if_false, subst,
}
use mathlib.Core.List.{append-nil}
use ai_open_router.Transform.Context.{StreamContext}
use ai_open_router.Pipeline.Relay.{
  Setup, Relay, finalize_stream_transform, deliver, after_tail, send_tail, transform_tail,
  send_finalizer, send_end, fail, send, send_item,
}
use ai_open_router.Pipeline.Relay.Events.{Runs, also, translate, deliver-Runs, sent_bytes}

-- What a stream comes to: the bytes that the client receives after the ones before, or a failure.
abbrev pub Delivers : Option (List ℕ) → List ℕ → Relay → Type 0
Delivers none received s = s.stream_failed ≡ true
Delivers (some out) received s = (s.stream_failed ≡ false) × (sent_bytes s.sent ≡ received ++ out)

module _ (setup : Setup) where
  abbrev pub finalizer : StreamContext → List ℕ
  finalizer ctx = (finalize_stream_transform setup.to_string setup.transformer_name ctx).1

  -- The bytes after the last event are an event too, unless there are none.
  abbrev pub tail_event : List ℕ → List (List ℕ)
  tail_event rest = if is_nil rest then [] else rest ∷ []

  -- The events to the end of the stream.
  unfoldable pub translate_end : List ℕ → StreamContext → Option (List ℕ)
  unfolding translate finalize_stream_transform
  translate_end rest ctx =
      translate setup (tail_event rest) ctx >>= λ last. some (last.1 ++ finalizer last.0)

  send_finalizer-Runs :
      (ctx : StreamContext) (pending received bytes : List ℕ) (s : Relay)
      → Runs ctx pending received s
      → (send_finalizer setup bytes s).downstream_closed ≡ false
      → Runs ctx pending (received ++ bytes) (send_finalizer setup bytes s)
  send_finalizer-Runs ctx pending received [] s h k = rw (append-nil received) h
  send_finalizer-Runs ctx pending received (b ∷ bytes) s h k =
      deliver-Runs setup ctx pending received (b ∷ bytes) _ (also ctx pending received s _ _ _ _ h)
        k

  pub send_end-closed :
      (s : Relay) → s.downstream_closed ≡ true → (send_end setup s).downstream_closed ≡ true
  unfolding send_end
  send_end-closed s e = ap (λ r. r.downstream_closed) (if_true s.downstream_closed s _ e) ∙ e

  pub send_end-Delivers :
      (ctx : StreamContext) (pending received : List ℕ) (s : Relay)
      → Runs ctx pending received s
      → (send_end setup s).downstream_closed ≡ false
      → Delivers (some (finalizer ctx)) received (send_end setup s)
  unfolding send_end
  send_end-Delivers ctx pending received s h k =
      let end = finalize_stream_transform setup.to_string setup.transformer_name s.stream_ctx in
      let t = record s { stream_ctx = end.0 } in
      let go : send_end setup s ≡ send_finalizer setup end.1 t =
        if_false s.downstream_closed s (send_finalizer setup end.1 t) h.not_closed in
      let runs =
        send_finalizer-Runs end.0 pending received end.1 t
          (record {
            ctx_is = refl;
            pending_is = h.pending_is;
            received_is = h.received_is;
            not_failed = h.not_failed;
            not_closed = h.not_closed;
            not_probed = h.not_probed;
          })
          (sym (ap (λ r. r.downstream_closed) go) ∙ k) in
      subst (Delivers (some (finalizer ctx)) received) (sym go)
        (runs.not_failed, runs.received_is ∙ ap (λ c. received ++ finalizer c) h.ctx_is)

  pub send_end-failed :
      (s : Relay) → s.stream_failed ≡ true → (send_end setup s).stream_failed ≡ true
  unfolding send_end deliver send send_item
  send_end-failed s e = ground arith

  pub transform_tail-ok :
      (s : Relay) (converted : List ℕ)
      → (setup.transform_sse_event s.sse_pending s.stream_ctx).1 ≡ ok converted
      → transform_tail setup s ≡ send_tail setup converted (after_tail setup s)
  unfolding transform_tail
  transform_tail-ok s converted e = rw (transform_tail, e) refl

  pub transform_tail-err :
      (s : Relay) (message : String)
      → (setup.transform_sse_event s.sse_pending s.stream_ctx).1 ≡ err message
      → transform_tail setup s ≡ fail setup true "stream transform failed" (after_tail setup s)
  unfolding transform_tail
  transform_tail-err s message e = rw (transform_tail, e) refl

  pub send_tail-Runs :
      (ctx : StreamContext) (received converted : List ℕ) (s : Relay)
      → Runs ctx [] received s
      → (send_tail setup converted s).downstream_closed ≡ false
      → Runs ctx [] (received ++ converted) (send_tail setup converted s)
  send_tail-Runs ctx received [] s h k = rw (append-nil received) h
  send_tail-Runs ctx received (b ∷ bytes) s h k =
      deliver-Runs setup ctx [] received (b ∷ bytes) s h k
