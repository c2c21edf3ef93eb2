-- ===== src/Pipeline/Relay/Failures.antt =====
-- What a client sees of a stream that fails, in proxy/pipeline.rs.
use ai_open_router.Prelude.{
  ℕ, String, err, ok, ◌≡◌, refl, ap, ◌∙◌, Bool, true, false, none, List, [], ◌∷◌, ◌++◌, ◌≤◌, ◌-◌,
  eqb, length, inl, inr, arith, if_false,
}
use ai_open_router.Transform.Context.{StreamContext}
use ai_open_router.Pipeline.Framing.{all_events}
use ai_open_router.Pipeline.Relay.{
  take_in, Setup, Item, chunk, io_error, Relay, max_sse_pending_bytes, requires_buffer, send,
  send_item, deliver, end_or_error, fail, after_event, see_converted, transform_events, on_chunk,
}
use ai_open_router.Pipeline.Relay.Events.{Runs, translate}
use ai_open_router.Pipeline.Relay.Transform.{
  Result-cases, transform_events-ok, transform_events-err, translate-none, after_event-Runs,
  transform_events-fails,
}
use ai_open_router.Pipeline.Relay.End.{finalizer}
use ai_open_router.Pipeline.Relay.Refinement.{
  cut, cut-Runs, on_chunk-within, forward_if-failed, round-fails,
}

send_item-sent :
    (item : Item) (s : Relay)
    → eqb s.receiver 0 ≡ false
    → (send_item item s).sent ≡ s.sent ++ item ∷ []
unfolding send_item
send_item-sent item s e =
    ap (λ r. r.sent)
      (if_false (eqb s.receiver 0) s
        (record s { receiver = s.receiver - 1; sent = s.sent ++ item ∷ [] }) e)

send-sent :
    (outgoing : List ℕ) (s : Relay)
    → eqb s.receiver 0 ≡ false
    → (send outgoing s).sent ≡ s.sent ++ chunk outgoing ∷ []
unfolding send
send-sent outgoing s e =
    ap (λ r. r.sent)
      (if_false (eqb s.receiver 0) (record s { downstream_closed = true })
        (send_item (chunk outgoing) s) e)
    ∙ send_item-sent (chunk outgoing) s e

module _ (setup : Setup) where
  -- The last item of a failed stream: what its transformer ends with, or else an error.
  abbrev pub closing : String → List ℕ → Item
  closing message [] = io_error message
  closing message (b ∷ bytes) = chunk (b ∷ bytes)

  end_or_error-sent :
      (counted : Bool) (message : String) (last : List ℕ) (s : Relay)
      → eqb s.receiver 0 ≡ false
      → (end_or_error setup counted message last s).sent ≡ s.sent ++ closing message last ∷ []
  unfolding deliver
  end_or_error-sent counted message [] s e = send_item-sent (io_error message) s e
  end_or_error-sent true message (b ∷ bytes) s e = send-sent (b ∷ bytes) _ e
  end_or_error-sent false message (b ∷ bytes) s e = send-sent (b ∷ bytes) _ e

  fail-sent :
      (counted : Bool) (message : String) (s : Relay)
      → eqb s.receiver 0 ≡ false
      → (fail setup counted message s).sent
        ≡ s.sent ++ closing message (finalizer setup s.stream_ctx) ∷ []
  unfolding fail
  fail-sent counted message s e =
      end_or_error-sent counted message (finalizer setup s.stream_ctx) _ e

  -- The context that the first event that does not convert leaves.
  unfoldable pub failing : List (List ℕ) → StreamContext → StreamContext
  failing [] ctx = ctx
  failing (event ∷ events) ctx =
      let next = (setup.transform_sse_event event ctx).0 in
      elim (setup.transform_sse_event event ctx).1 [
        | err message ↦ next
        | ok converted ↦ failing events next
      ]

  failing-err :
      (event : List ℕ) (events : List (List ℕ)) (ctx : StreamContext) (message : String)
      → (setup.transform_sse_event event ctx).1 ≡ err message
      → (setup.transform_sse_event event ctx).0 ≡ failing (event ∷ events) ctx
  unfolding failing
  failing-err event events ctx message e = rw (failing, e) refl

  failing-ok :
      (event : List ℕ) (events : List (List ℕ)) (ctx : StreamContext) (converted : List ℕ)
      → (setup.transform_sse_event event ctx).1 ≡ ok converted
      → failing events (setup.transform_sse_event event ctx).0 ≡ failing (event ∷ events) ctx
  unfolding failing
  failing-ok event events ctx converted e = rw (failing, e) refl

  unsent :
      (event converted : List ℕ) (s : Relay)
      → ((see_converted setup converted (after_event setup event s)).sent ≡ s.sent)
        × ((see_converted setup converted (after_event setup event s)).receiver ≡ s.receiver)
        × ((see_converted setup converted (after_event setup event s)).stream_ctx
            ≡ (setup.transform_sse_event event s.stream_ctx).0)
  unsent event [] s = (refl, refl, refl)
  unsent event (b ∷ converted) s = (refl, refl, refl)

  -- What the transformer ends with after the event that does not convert.
  abbrev pub end_of : List (List ℕ) → StreamContext → List ℕ
  end_of events ctx = finalizer setup (failing events ctx)

  -- Events that do not all convert send one item.
  transform_events-sent :
      (events : List (List ℕ)) (ctx : StreamContext) (pending received : List ℕ) (s : Relay)
      → Runs ctx pending received s
      → translate setup events ctx ≡ none
      → eqb s.receiver 0 ≡ false
      → (transform_events setup events s).0.sent
        ≡ s.sent ++ closing "stream transform failed" (end_of events s.stream_ctx) ∷ []
  unfolding translate
  transform_events-sent [] ctx pending received s h k e = absurd (ground arith)
  transform_events-sent (event ∷ events) ctx pending received s h k e =
      elim (Result-cases (setup.transform_sse_event event s.stream_ctx).1) [
        | inl (message, r) ↦
            ap (λ t. t.0.sent) (transform_events-err setup event events s message r)
            ∙ fail-sent true "stream transform failed" (after_event setup event s) e
            ∙ ap (λ c. s.sent ++ closing "stream transform failed" (finalizer setup c) ∷ [])
                (failing-err event events s.stream_ctx message r)
        | inr (converted, r) ↦
            let next = see_converted setup converted (after_event setup event s) in
            let (same, there, ctx_is) = unsent event converted s in
            let sent =
              transform_events-sent events (setup.transform_sse_event event s.stream_ctx).0 pending
                received next (after_event-Runs setup event pending received converted s h)
                (translate-none setup event events ctx converted s h r k)
                (ap (λ n. eqb n 0) there ∙ e) in
            ap (λ t. t.0.sent) (transform_events-ok setup event events s converted r)
            ∙ sent
            ∙ ap (λ x. x ++ closing "stream transform failed" (end_of events next.stream_ctx) ∷ [])
                same
            ∙ ap (λ c. s.sent ++ closing "stream transform failed" (finalizer setup c) ∷ [])
                (ap (failing events) ctx_is ∙ failing-ok event events s.stream_ctx converted r)
      ]

  -- If an event of a read does not convert, while the stream is buffered within its limit, is
  -- not probed and has a client that listens, the stream fails, and one item is sent for the
  -- whole read: what the transformer ends the stream with after the failing event, or an error
  -- if that is empty.
  pub on_chunk-failed_event :
      (ctx : StreamContext) (pending received incoming : List ℕ) (s : Relay)
      → Runs ctx pending received s
      → requires_buffer setup ≡ true
      → length (pending ++ incoming) ≤ max_sse_pending_bytes
      → translate setup (all_events (pending ++ incoming)).0 ctx ≡ none
      → eqb s.receiver 0 ≡ false
      → ((on_chunk setup incoming s).stream_failed ≡ true)
        × ((on_chunk setup incoming s).sent
            ≡ s.sent
              ++ closing "stream transform failed"
                  (end_of (all_events (pending ++ incoming)).0 s.stream_ctx)
                ∷ [])
  unfolding take_in
  on_chunk-failed_event ctx pending received incoming s h q fits missing e =
      let events = (all_events (pending ++ incoming)).0 in
      let start = cut-Runs setup ctx pending received incoming s h in
      let failed = round-fails setup ctx pending received incoming s h q fits missing in
      let sent =
        transform_events-sent events ctx (all_events (pending ++ incoming)).1 received
          (cut setup incoming s) start missing e in
      let go =
        on_chunk-within setup ctx pending received incoming s h q fits
        ∙ forward_if-failed setup (transform_events setup events (cut setup incoming s)) (
            transform_events-fails setup events ctx (all_events (pending ++ incoming)).1 received
              (cut setup incoming s) start missing) in
      (failed, ap (λ t. t.sent) go ∙ sent)
