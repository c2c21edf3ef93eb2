-- ===== src/Pipeline/Relay/Honesty.antt =====
-- A client of proxy/pipeline.rs learns of an error only from a stream that has failed.
use ai_open_router.Prelude.{
  ℕ, String, ◌≡◌, ap, sym, subst, Bool, true, false, not, ◌&&◌, ◌||◌, List, [], ◌∷◌, ◌++◌, ◌-◌, All,
  All-append, eqb, ltb, length, is_nil, inl, inr, arith, if◌then◌else◌,
}
use ai_open_router.Pipeline.Probe.{looks_like_sse_prelude}
use ai_open_router.Pipeline.Framing.{all_events}
use ai_open_router.Pipeline.Relay.{
  Setup, Item, chunk, io_error, Read, bytes, read_error, Relay, max_sse_pending_bytes,
  requires_buffer, send, send_item, captured, count_send, deliver, fail, after_event, see_converted,
  transform_events, forward, forward_if, forward_events, take_in, seen, buffered, probe_failed,
  on_chunk, after_tail, send_tail, transform_tail, send_finalizer, send_end, on_end, relay,
  finalize_stream_transform,
}
use ai_open_router.Pipeline.Relay.Events.{fail_failed}
use ai_open_router.Pipeline.Relay.End.{transform_tail-ok, transform_tail-err}
use ai_open_router.Pipeline.Relay.Transform.{
  Result-cases, transform_events-ok, transform_events-err,
}

abbrev pub IsChunk : Item → Type 0
IsChunk (chunk outgoing) = Unit {0}
IsChunk (io_error message) = ⊥

-- A stream that has not failed has sent no error.
abbrev pub IsHonest : Relay → Type 0
IsHonest s = s.stream_failed ≡ false → All IsChunk s.sent

if-IsHonest : (b : Bool) (s t : Relay) → IsHonest s → IsHonest t → IsHonest (if b then s else t)
if-IsHonest true s t h k = h
if-IsHonest false s t h k = k

failed-IsHonest : (s : Relay) → s.stream_failed ≡ true → IsHonest s
failed-IsHonest s e f = absurd (ground arith)

send-IsHonest : (outgoing : List ℕ) (s : Relay) → IsHonest s → IsHonest (send outgoing s)
unfolding send send_item
send-IsHonest outgoing s h =
    if-IsHonest (eqb s.receiver 0) (record s { downstream_closed = true })
      (send_item (chunk outgoing) s) h
      (if-IsHonest (eqb s.receiver 0) s
        (record s { receiver = s.receiver - 1; sent = s.sent ++ chunk outgoing ∷ [] }) h
        (λ f. All-append IsChunk s.sent (chunk outgoing ∷ []) (h f) (tt, tt)))

module _ (setup : Setup) where
  deliver-IsHonest :
      (outgoing : List ℕ) (s : Relay) → IsHonest s → IsHonest (deliver setup outgoing s)
  unfolding deliver
  deliver-IsHonest outgoing s h = send-IsHonest outgoing (captured setup outgoing s) h

  fail-IsHonest :
      (counted : Bool) (message : String) (s : Relay) → IsHonest (fail setup counted message s)
  fail-IsHonest counted message s =
      failed-IsHonest (fail setup counted message s) (fail_failed setup counted message s)

  forward-IsHonest :
      (outgoing : List (List ℕ)) (s : Relay) → IsHonest s → IsHonest (forward setup outgoing s)
  unfolding forward
  forward-IsHonest [] s h = h
  forward-IsHonest (out ∷ rest) s h =
      let t = deliver setup out (count_send setup s) in
      let sent = deliver-IsHonest out (count_send setup s) h in
      if-IsHonest t.downstream_closed t (forward setup rest t) sent (forward-IsHonest rest t sent)

  after_event-IsHonest :
      (event converted : List ℕ) (s : Relay)
      → IsHonest s
      → IsHonest (see_converted setup converted (after_event setup event s))
  after_event-IsHonest event [] s h = h
  after_event-IsHonest event (b ∷ converted) s h = h

  transform_events-IsHonest :
      (events : List (List ℕ)) (s : Relay)
      → IsHonest s
      → IsHonest (transform_events setup events s).0
  unfolding transform_events
  transform_events-IsHonest [] s h = h
  transform_events-IsHonest (event ∷ events) s h =
      elim (Result-cases (setup.transform_sse_event event s.stream_ctx).1) [
        | inl (message, e) ↦
            subst IsHonest
              (ap (λ r. r.0) (sym (transform_events-err setup event events s message e)))
              (fail-IsHonest true "stream transform failed" (after_event setup event s))
        | inr (converted, e) ↦
            subst IsHonest
              (ap (λ r. r.0) (sym (transform_events-ok setup event events s converted e)))
              (transform_events-IsHonest events
                (see_converted setup converted (after_event setup event s))
                (after_event-IsHonest event converted s h))
      ]

  forward_if-IsHonest : (r : Relay × List (List ℕ)) → IsHonest r.0 → IsHonest (forward_if setup r)
  forward_if-IsHonest (t, chunks) h =
      if-IsHonest t.stream_failed t (forward setup chunks t) h (forward-IsHonest chunks t h)

  forward_events-IsHonest : (s : Relay) → IsHonest s → IsHonest (forward_events setup s)
  unfolding forward_events
  forward_events-IsHonest s h =
      let cut = all_events s.sse_pending in
      if-IsHonest (ltb max_sse_pending_bytes (length s.sse_pending))
        (fail setup false "stream transform buffer overflow" s)
        (forward_if setup (transform_events setup cut.0 (record s { sse_pending = cut.1 })))
        (fail-IsHonest false "stream transform buffer overflow" s)
        (forward_if-IsHonest (transform_events setup cut.0 (record s { sse_pending = cut.1 }))
          (transform_events-IsHonest cut.0 (record s { sse_pending = cut.1 }) h))

  probe_failed-failed : (s : Relay) → (probe_failed setup s).stream_failed ≡ true
  unfolding send_item
  probe_failed-failed s = ground arith

  on_chunk-IsHonest :
      (incoming : List ℕ) (s : Relay) → IsHonest s → IsHonest (on_chunk setup incoming s)
  unfolding on_chunk take_in
  on_chunk-IsHonest incoming s h =
      let taken = take_in setup incoming (seen setup incoming s) in
      if-IsHonest (s.probe_sse && not (looks_like_sse_prelude incoming))
        (probe_failed setup (seen setup incoming s)) _
        (failed-IsHonest (probe_failed setup (seen setup incoming s))
          (probe_failed-failed (seen setup incoming s)))
        (if-IsHonest (requires_buffer setup) (forward_events setup (buffered setup incoming taken))
          (forward setup (incoming ∷ []) taken)
          (forward_events-IsHonest (buffered setup incoming taken) h)
          (forward-IsHonest (incoming ∷ []) taken h))

  send_tail-IsHonest :
      (converted : List ℕ) (s : Relay) → IsHonest s → IsHonest (send_tail setup converted s)
  send_tail-IsHonest [] s h = h
  send_tail-IsHonest (b ∷ converted) s h = deliver-IsHonest (b ∷ converted) s h

  transform_tail-IsHonest : (s : Relay) → IsHonest s → IsHonest (transform_tail setup s)
  transform_tail-IsHonest s h =
      elim (Result-cases (setup.transform_sse_event s.sse_pending s.stream_ctx).1) [
        | inl (message, e) ↦
            subst IsHonest (sym (transform_tail-err setup s message e))
              (fail-IsHonest true "stream transform failed" (after_tail setup s))
        | inr (converted, e) ↦
            subst IsHonest (sym (transform_tail-ok setup s converted e))
              (send_tail-IsHonest converted (after_tail setup s) h)
      ]

  send_finalizer-IsHonest :
      (last : List ℕ) (s : Relay) → IsHonest s → IsHonest (send_finalizer setup last s)
  send_finalizer-IsHonest [] s h = h
  send_finalizer-IsHonest (b ∷ last) s h = deliver-IsHonest (b ∷ last) _ h

  send_end-IsHonest : (s : Relay) → IsHonest s → IsHonest (send_end setup s)
  unfolding send_end
  send_end-IsHonest s h =
      let end = finalize_stream_transform setup.to_string setup.transformer_name s.stream_ctx in
      if-IsHonest s.downstream_closed s _ h
        (send_finalizer-IsHonest end.1 (record s { stream_ctx = end.0 }) h)

  on_end-IsHonest : (s : Relay) → IsHonest s → IsHonest (on_end setup s)
  unfolding on_end
  on_end-IsHonest s h =
      let tail = requires_buffer setup && not (is_nil s.sse_pending) in
      send_end-IsHonest (if tail then transform_tail setup s else s)
        (if-IsHonest tail (transform_tail setup s) s (transform_tail-IsHonest s h) h)

  -- An error is sent to the client only by a relay that has failed.
  pub relay-IsHonest : (reads : List Read) (s : Relay) → IsHonest s → IsHonest (relay setup reads s)
  unfolding relay
  relay-IsHonest [] s h = on_end-IsHonest s h
  relay-IsHonest (read_error ∷ reads) s h = fail-IsHonest true "stream read failed" s
  relay-IsHonest (bytes incoming ∷ reads) s h =
      let t = on_chunk setup incoming s in
      let next = on_chunk-IsHonest incoming s h in
      if-IsHonest (t.stream_failed || t.downstream_closed) t (relay setup reads t) next
        (relay-IsHonest reads t next)
