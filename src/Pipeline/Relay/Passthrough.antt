-- ===== src/Pipeline/Relay/Passthrough.antt =====
-- The relay of a stream that needs no conversion, in proxy/pipeline.rs.
use ai_open_router.Prelude.{
  ℕ, String, ◌≡◌, refl, ap, sym, ◌∙◌, subst, false, not, ◌&&◌, some, List, [], ◌∷◌, ◌++◌, eq_iff,
  concat, map, is_nil, Bool-cases, inl, inr, arith, append_assoc, if_false, ◌⊎◌,
}
use mathlib.Core.List.{append-nil}
use ai_open_router.Transform.Context.{StreamContext}
use ai_open_router.Pipeline.Request.{stream_requires_sse_event_buffer}
use ai_open_router.Pipeline.Relay.{
  Setup, bytes, Relay, requires_buffer, finalize_stream_transform, seen, take_in, forward, on_chunk,
  relay, on_end, send_end, transform_tail,
}
use ai_open_router.Pipeline.Relay.Events.{Runs, forward-Runs}
use ai_open_router.Pipeline.Relay.End.{Delivers, send_end-Delivers}
use ai_open_router.Pipeline.Relay.Rounds.{relay-end, on_chunk-passed, relay-stopped, relay-goes}

-- The transformers that pass a stream through.
passthrough_names :
    (name : String)
    → stream_requires_sse_event_buffer name ≡ false
    → (name ≡ "cc_claude") ⊎ ((name ≡ "cx_chat_openai") ⊎ (name ≡ "cx_resp_openai2"))
unfolding stream_requires_sse_event_buffer
passthrough_names name h =
    ground
      (arith, eq_iff name "cc_claude", eq_iff name "cx_chat_openai", eq_iff name "cx_resp_openai2")

no_finalizer :
    (setup : Setup) (ctx : StreamContext) (name : String)
    → (name ≡ "cc_claude") ⊎ ((name ≡ "cx_chat_openai") ⊎ (name ≡ "cx_resp_openai2"))
    → finalize_stream_transform setup.to_string name ctx ≡ (ctx, [])
unfolding finalize_stream_transform
no_finalizer setup ctx name (inl e) = rw e refl
no_finalizer setup ctx name (inr (inl e)) = rw e refl
no_finalizer setup ctx name (inr (inr e)) = rw e refl

module _ (setup : Setup) where
  on_end-passed : (s : Relay) → requires_buffer setup ≡ false → on_end setup s ≡ send_end setup s
  unfolding on_end
  on_end-passed s q = ap (send_end setup) (
      if_false (requires_buffer setup && not (is_nil s.sse_pending)) (transform_tail setup s) s
        (rw q refl))

  take_in-Runs :
      (ctx : StreamContext) (pending received incoming : List ℕ) (s : Relay)
      → Runs ctx pending received s
      → Runs ctx pending received (take_in setup incoming (seen setup incoming s))
  unfolding take_in
  take_in-Runs ctx pending received incoming s h = record {
    ctx_is = h.ctx_is;
    pending_is = h.pending_is;
    received_is = h.received_is;
    not_failed = h.not_failed;
    not_closed = h.not_closed;
    not_probed = refl;
  }

  -- A read to a client that stays.
  round-passed :
      (ctx : StreamContext) (pending received incoming : List ℕ) (s : Relay)
      → Runs ctx pending received s
      → requires_buffer setup ≡ false
      → (on_chunk setup incoming s).downstream_closed ≡ false
      → Runs ctx pending (received ++ incoming) (on_chunk setup incoming s)
  round-passed ctx pending received incoming s h q c =
      let passed = on_chunk-passed setup incoming s h.not_probed q in
      let taken = take_in setup incoming (seen setup incoming s) in
      let sent =
        forward-Runs setup ctx pending received (incoming ∷ []) taken
          (take_in-Runs ctx pending received incoming s h)
          (sym (ap (λ r. r.downstream_closed) passed) ∙ c) in
      subst (Runs ctx pending (received ++ incoming)) (sym passed) (
        subst (λ i. Runs ctx pending (received ++ i) (forward setup (incoming ∷ []) taken))
          (append-nil incoming) sent)

  end-passed :
      (ctx : StreamContext) (pending received : List ℕ) (s : Relay)
      → Runs ctx pending received s
      → requires_buffer setup ≡ false
      → (on_end setup s).downstream_closed ≡ false
      → Delivers (some []) received (on_end setup s)
  end-passed ctx pending received s h q k =
      let go = on_end-passed s q in
      let silent =
        ap (λ r. r.1)
          (no_finalizer setup ctx setup.transformer_name
            (passthrough_names setup.transformer_name q)) in
      let (fine, bytes_are) =
        send_end-Delivers setup ctx pending received s h
          (sym (ap (λ r. r.downstream_closed) go) ∙ k) in
      subst (Delivers (some []) received) (sym go)
        (fine, bytes_are ∙ ap (λ f. received ++ f) silent)

  -- With a transformer that passes streams through, from a relay that has not failed and probes
  -- nothing, a client that stays gets the bytes of the upstream, unchanged and in order, and the
  -- stream does not fail.
  pub relay-passthrough :
      (chunks : List (List ℕ)) (ctx : StreamContext) (pending received : List ℕ) (s : Relay)
      → Runs ctx pending received s
      → requires_buffer setup ≡ false
      → (relay setup (map bytes chunks) s).downstream_closed ≡ false
      → Delivers (some (concat chunks)) received (relay setup (map bytes chunks) s)
  relay-passthrough [] ctx pending received s h q k =
      let go = relay-end setup s in
      subst (Delivers (some []) received) (sym go)
        (end-passed ctx pending received s h q (sym (ap (λ r. r.downstream_closed) go) ∙ k))
  relay-passthrough (incoming ∷ chunks) ctx pending received s h q k =
      let t = on_chunk setup incoming s in
      elim (Bool-cases t.downstream_closed) [
        | inl c ↦
            let gone = relay-stopped setup incoming (map bytes chunks) s (ground (arith, c)) in
            absurd (ground (arith, ap (λ r. r.downstream_closed) gone, c, k))
        | inr c ↦
            let runs = round-passed ctx pending received incoming s h q c in
            let go =
              relay-goes setup incoming (map bytes chunks) s (ground (arith, runs.not_failed, c)) in
            let rest =
              relay-passthrough chunks ctx pending (received ++ incoming) t runs q
                (sym (ap (λ r. r.downstream_closed) go) ∙ k) in
            subst (Delivers (some (incoming ++ concat chunks)) received) (sym go)
              (rest.0, rest.1 ∙ append_assoc received incoming (concat chunks))
      ]
