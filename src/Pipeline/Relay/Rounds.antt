-- ===== src/Pipeline/Relay/Rounds.antt =====
-- One round of the relay in proxy/pipeline.rs.
use ai_open_router.Prelude.{
  ℕ, ◌≡◌, refl, ◌∙◌, true, false, not, ◌&&◌, ◌||◌, List, [], ◌∷◌, ◌≤◌, ltb, length, arith, if_true,
  if_false,
}
use ai_open_router.Pipeline.Probe.{looks_like_sse_prelude}
use ai_open_router.Pipeline.Framing.{all_events}
use ai_open_router.Pipeline.Relay.{
  on_end, Setup, Read, bytes, Relay, max_sse_pending_bytes, requires_buffer, seen, buffered,
  take_in, forward, forward_if, forward_events, transform_events, on_chunk, relay, fail,
}

module _ (setup : Setup) where
  pub on_chunk-buffered :
      (incoming : List ℕ) (s : Relay)
      → s.probe_sse ≡ false
      → requires_buffer setup ≡ true
      → on_chunk setup incoming s
        ≡ forward_events setup
            (buffered setup incoming (take_in setup incoming (seen setup incoming s)))
  unfolding on_chunk
  on_chunk-buffered incoming s e q =
      let taken = take_in setup incoming (seen setup incoming s) in
      if_false (s.probe_sse && not (looks_like_sse_prelude incoming)) _ _ (rw e refl)
      ∙ if_true (requires_buffer setup) (forward_events setup (buffered setup incoming taken))
          (forward setup (incoming ∷ []) taken) q

  pub on_chunk-passed :
      (incoming : List ℕ) (s : Relay)
      → s.probe_sse ≡ false
      → requires_buffer setup ≡ false
      → on_chunk setup incoming s
        ≡ forward setup (incoming ∷ []) (take_in setup incoming (seen setup incoming s))
  unfolding on_chunk
  on_chunk-passed incoming s e q =
      let taken = take_in setup incoming (seen setup incoming s) in
      if_false (s.probe_sse && not (looks_like_sse_prelude incoming)) _ _ (rw e refl)
      ∙ if_false (requires_buffer setup) (forward_events setup (buffered setup incoming taken))
          (forward setup (incoming ∷ []) taken) q

  pub forward_events-within :
      (s : Relay)
      → length s.sse_pending ≤ max_sse_pending_bytes
      → forward_events setup s
        ≡ forward_if setup (
            transform_events setup
              (all_events s.sse_pending).0
              (record s { sse_pending = (all_events s.sse_pending).1 }))
  unfolding forward_events
  forward_events-within s h =
      if_false (ltb max_sse_pending_bytes (length s.sse_pending))
        (fail setup false "stream transform buffer overflow" s) _ (ground arith)

  pub relay-stopped :
      (incoming : List ℕ) (reads : List Read) (s : Relay)
      → ((on_chunk setup incoming s).stream_failed || (on_chunk setup incoming s).downstream_closed)
        ≡ true
      → relay setup (bytes incoming ∷ reads) s ≡ on_chunk setup incoming s
  unfolding relay
  relay-stopped incoming reads s e =
      let t = on_chunk setup incoming s in
      if_true (t.stream_failed || t.downstream_closed) t (relay setup reads t) e

  pub relay-goes :
      (incoming : List ℕ) (reads : List Read) (s : Relay)
      → ((on_chunk setup incoming s).stream_failed || (on_chunk setup incoming s).downstream_closed)
        ≡ false
      → relay setup (bytes incoming ∷ reads) s ≡ relay setup reads (on_chunk setup incoming s)
  unfolding relay
  relay-goes incoming reads s e =
      let t = on_chunk setup incoming s in
      if_false (t.stream_failed || t.downstream_closed) t (relay setup reads t) e

  pub relay-end : (s : Relay) → relay setup [] s ≡ on_end setup s
  unfolding relay
  relay-end s = refl
