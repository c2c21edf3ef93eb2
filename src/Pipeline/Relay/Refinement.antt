-- ===== src/Pipeline/Relay/Refinement.antt =====
-- The relay of a converted stream in proxy/pipeline.rs against the conversion of the whole stream.
use ai_open_router.Prelude.{
  ℕ, ◌≡◌, refl, ap, sym, ◌∙◌, subst, true, false, none, some, List, [], ◌∷◌, ◌++◌, ◌≤◌, length,
  length-append, concat, map, Bool-cases, Option-cases, inl, inr, arith, append_assoc, if_true,
  if_false,
}
use mathlib.Core.List.{append-nil}
use ai_open_router.Transform.Context.{StreamContext}
use ai_open_router.Pipeline.Framing.{all_events}
use ai_open_router.Pipeline.Framing.Events.{all_events-IsFraming}
use ai_open_router.Pipeline.Relay.{
  Setup, bytes, Relay, max_sse_pending_bytes, requires_buffer, seen, buffered, take_in, forward,
  forward_if, transform_events, on_chunk, relay,
}
use ai_open_router.Pipeline.Relay.Events.{Runs, translate, forward-Runs}
use ai_open_router.Pipeline.Relay.Transform.{transform_events-Runs, transform_events-fails}
use ai_open_router.Pipeline.Relay.End.{Delivers}
use ai_open_router.Pipeline.Relay.Tail.{on_end-Delivers}
use ai_open_router.Pipeline.Relay.Rounds.{
  on_chunk-buffered, forward_events-within, relay-stopped, relay-goes,
}
use ai_open_router.Pipeline.Relay.Reference.{
  Delivers-after, all_events-rest, reference, reference-append, reference-rest,
}

module _ (setup : Setup) where
  -- The state before the events of a read are converted.
  abbrev pub cut : List ℕ → Relay → Relay
  cut incoming s =
      let b = buffered setup incoming (take_in setup incoming (seen setup incoming s)) in
      record b { sse_pending = (all_events b.sse_pending).1 }

  pub cut-Runs :
      (ctx : StreamContext) (pending received incoming : List ℕ) (s : Relay)
      → Runs ctx pending received s
      → Runs ctx (all_events (pending ++ incoming)).1 received (cut incoming s)
  unfolding take_in
  cut-Runs ctx pending received incoming s h = record {
    ctx_is = h.ctx_is;
    pending_is = ap (λ p. (all_events (p ++ incoming)).1) h.pending_is;
    received_is = h.received_is;
    not_failed = h.not_failed;
    not_closed = h.not_closed;
    not_probed = refl;
  }

  -- A read whose bytes fit the buffer.
  pub on_chunk-within :
      (ctx : StreamContext) (pending received incoming : List ℕ) (s : Relay)
      → Runs ctx pending received s
      → requires_buffer setup ≡ true
      → length (pending ++ incoming) ≤ max_sse_pending_bytes
      → on_chunk setup incoming s
        ≡ forward_if setup
            (transform_events setup (all_events (pending ++ incoming)).0 (cut incoming s))
  unfolding take_in
  on_chunk-within ctx pending received incoming s h q fits =
      let b = buffered setup incoming (take_in setup incoming (seen setup incoming s)) in
      let joined : s.sse_pending ++ incoming ≡ pending ++ incoming =
        ap (λ p. p ++ incoming) h.pending_is in
      on_chunk-buffered setup incoming s h.not_probed q
      ∙ forward_events-within setup b (omega (arith, fits, ap (length {A = ℕ}) joined))
      ∙ ap (λ p. forward_if setup (transform_events setup (all_events p).0 (cut incoming s))) joined

  -- What is left after the events, with what is to come, is no longer than before.
  rest-fits :
      (stream more : List ℕ) → length ((all_events stream).1 ++ more) ≤ length (stream ++ more)
  rest-fits stream more =
      let (whole, events, rest) = all_events-IsFraming stream in
      omega (
        arith,
        ap (length {A = ℕ}) whole,
        length-append (concat (all_events stream).0) (all_events stream).1,
        length-append (all_events stream).1 more,
        length-append stream more,
      )

  pub forward_if-failed :
      (r : Relay × List (List ℕ)) → r.0.stream_failed ≡ true → forward_if setup r ≡ r.0
  forward_if-failed (t, chunks) e = if_true t.stream_failed t (forward setup chunks t) e

  forward_if-runs :
      (r : Relay × List (List ℕ))
      → r.0.stream_failed ≡ false
      → forward_if setup r ≡ forward setup r.1 r.0
  forward_if-runs (t, chunks) e = if_false t.stream_failed t (forward setup chunks t) e

  -- A read whose events convert, to a client that stays.
  round-Runs :
      (ctx : StreamContext) (pending received incoming : List ℕ) (s : Relay) (mid : StreamContext)
      (out : List ℕ)
      → Runs ctx pending received s
      → requires_buffer setup ≡ true
      → length (pending ++ incoming) ≤ max_sse_pending_bytes
      → translate setup (all_events (pending ++ incoming)).0 ctx ≡ some (mid, out)
      → (on_chunk setup incoming s).downstream_closed ≡ false
      → Runs mid (all_events (pending ++ incoming)).1 (received ++ out) (on_chunk setup incoming s)
  round-Runs ctx pending received incoming s mid out h q fits found k =
      let events = (all_events (pending ++ incoming)).0 in
      let rest = (all_events (pending ++ incoming)).1 in
      let start = cut-Runs ctx pending received incoming s h in
      let (runs, same) =
        transform_events-Runs setup events ctx mid out rest received (cut incoming s) start found in
      let go =
        on_chunk-within ctx pending received incoming s h q fits
        ∙ forward_if-runs (transform_events setup events (cut incoming s)) runs.not_failed in
      let last =
        forward-Runs setup mid rest received (transform_events setup events (cut incoming s)).1
          (transform_events setup events (cut incoming s)).0 runs
          (sym (ap (λ r. r.downstream_closed) go) ∙ k) in
      subst (Runs mid rest (received ++ out)) (sym go) (
        subst
          (λ o. Runs mid rest (received ++ o) (
            forward setup (transform_events setup events (cut incoming s)).1
              (transform_events setup events (cut incoming s)).0))
          same last)

  -- A read with an event that does not convert.
  pub round-fails :
      (ctx : StreamContext) (pending received incoming : List ℕ) (s : Relay)
      → Runs ctx pending received s
      → requires_buffer setup ≡ true
      → length (pending ++ incoming) ≤ max_sse_pending_bytes
      → translate setup (all_events (pending ++ incoming)).0 ctx ≡ none
      → (on_chunk setup incoming s).stream_failed ≡ true
  round-fails ctx pending received incoming s h q fits missing =
      let r = transform_events setup (all_events (pending ++ incoming)).0 (cut incoming s) in
      let failed =
        transform_events-fails setup (all_events (pending ++ incoming)).0 ctx
          (all_events (pending ++ incoming)).1 received (cut incoming s)
          (cut-Runs ctx pending received incoming s h) missing in
      ap (λ t. t.stream_failed)
        (on_chunk-within ctx pending received incoming s h q fits ∙ forward_if-failed r failed)
      ∙ failed

  -- The whole stream, from a state on.
  relay-Delivers :
      (chunks : List (List ℕ)) (ctx : StreamContext) (pending received : List ℕ) (s : Relay)
      → Runs ctx pending received s
      → requires_buffer setup ≡ true
      → all_events pending ≡ ([], pending)
      → length (pending ++ concat chunks) ≤ max_sse_pending_bytes
      → (relay setup (map bytes chunks) s).downstream_closed ≡ false
      → Delivers
          (reference setup (pending ++ concat chunks) ctx)
          received
          (relay setup (map bytes chunks) s)
  unfolding relay
  relay-Delivers [] ctx pending received s h q left fits k =
      rw (append-nil pending, reference-rest setup pending ctx left)
        (on_end-Delivers setup ctx pending received s h q k)
  relay-Delivers (incoming ∷ chunks) ctx pending received s h q left fits k =
      let stream = pending ++ incoming in
      let t = on_chunk setup incoming s in
      let whole = append_assoc pending incoming (concat chunks) in
      let size : length (stream ++ concat chunks) ≤ max_sse_pending_bytes =
        omega (arith, ap (length {A = ℕ}) whole, fits) in
      let now : length stream ≤ max_sse_pending_bytes =
        omega (arith, size, length-append stream (concat chunks)) in
      let split =
        sym (ap (λ w. reference setup w ctx) whole)
        ∙ reference-append setup stream (concat chunks) ctx in
      elim (Option-cases (translate setup (all_events stream).0 ctx)) [
        | inl missing ↦
            let failed = round-fails ctx pending received incoming s h q now missing in
            rw (split, missing, relay-stopped setup incoming (map bytes chunks) s (rw failed refl))
              failed
        | inr ((mid, out), found) ↦ elim (Bool-cases t.downstream_closed) [
          | inl c ↦
              let gone = relay-stopped setup incoming (map bytes chunks) s (ground (arith, c)) in
              absurd (ground (arith, ap (λ r. r.downstream_closed) gone, c, k))
          | inr c ↦
              let runs = round-Runs ctx pending received incoming s mid out h q now found c in
              let go =
                relay-goes setup incoming (map bytes chunks) s
                  (ground (arith, runs.not_failed, c)) in
              let rest =
                relay-Delivers chunks mid (all_events stream).1 (received ++ out) t runs q
                  (all_events-rest stream) (omega (arith, size, rest-fits stream (concat chunks)))
                  (sym (ap (λ r. r.downstream_closed) go) ∙ k) in
              rw (split, found, go)
                (Delivers-after (reference setup ((all_events stream).1 ++ concat chunks) mid)
                  received out (relay setup (map bytes chunks) t) rest)
        ]
      ]

  -- For a converting transformer and a relay that starts without a probe, however the upstream
  -- cuts its bytes into chunks, if the bytes fit the buffer and the client stays, the client
  -- gets exactly what the reference conversion of the joined bytes and their end gives, and the
  -- stream fails when the reference has an event that does not convert.
  pub relay-reference :
      (chunks : List (List ℕ)) (s : Relay)
      → Runs s.stream_ctx [] [] s
      → requires_buffer setup ≡ true
      → length (concat chunks) ≤ max_sse_pending_bytes
      → (relay setup (map bytes chunks) s).downstream_closed ≡ false
      → Delivers
          (reference setup (concat chunks) s.stream_ctx)
          []
          (relay setup (map bytes chunks) s)
  unfolding all_events
  relay-reference chunks s h q fits k = relay-Delivers chunks s.stream_ctx [] [] s h q refl fits k
