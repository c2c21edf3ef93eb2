-- ===== src/Pipeline/Relay/Events.antt =====
-- The loops of the relay in proxy/pipeline.rs: what they change, and what they send.
use ai_open_router.Prelude.{
  ℕ, String, ◌≡◌, refl, ap, sym, ◌∙◌, Bool, true, false, ◌-◌, Option, none, some, List, [], ◌∷◌,
  ◌++◌, eqb, ok, err, concat, append_assoc, Bool-cases, inl, inr, arith, if_true, if_false,
}
use mathlib.Core.List.{append-nil}
use ai_open_router.Transform.Context.{StreamContext}
use ai_open_router.Observability.Stream.{StreamTokenAccumulator}
use ai_open_router.Pipeline.Capture.{Capture}
use ai_open_router.Pipeline.Debug.{StreamDebugState}
use ai_open_router.Pipeline.Relay.{
  Setup, captured, count_send, Item, chunk, io_error, Relay, send_item, send, deliver, fail,
  forward,
}

-- The bytes that the client receives.
abbrev pub sent_bytes : List Item → List ℕ
sent_bytes [] = []
sent_bytes (chunk bytes ∷ items) = bytes ++ sent_bytes items
sent_bytes (io_error message ∷ items) = sent_bytes items

pub sent_bytes-append : (xs ys : List Item) → sent_bytes (xs ++ ys) ≡ sent_bytes xs ++ sent_bytes ys
sent_bytes-append [] ys = refl
sent_bytes-append (chunk bytes ∷ xs) ys =
    ap (λ rest. bytes ++ rest) (sent_bytes-append xs ys)
    ∙ sym (append_assoc bytes (sent_bytes xs) (sent_bytes ys))
sent_bytes-append (io_error message ∷ xs) ys = sent_bytes-append xs ys

-- The client has received the bytes, and nothing has gone wrong.
pub record Runs (ctx : StreamContext) (pending received : List ℕ) (s : Relay) : Type 0 where
  pub ctx_is : s.stream_ctx ≡ ctx
  pub pending_is : s.sse_pending ≡ pending
  pub received_is : sent_bytes s.sent ≡ received
  pub not_failed : s.stream_failed ≡ false
  pub not_closed : s.downstream_closed ≡ false
  pub not_probed : s.probe_sse ≡ false

abbrev accepted : Item → Relay → Relay
accepted item s = record s { receiver = s.receiver - 1; sent = s.sent ++ item ∷ [] }

send-gone :
    (outgoing : List ℕ) (s : Relay)
    → eqb s.receiver 0 ≡ true
    → (send outgoing s).downstream_closed ≡ true
unfolding send
send-gone outgoing s e =
    ap (λ r. r.downstream_closed) (if_true (eqb s.receiver 0) _ (send_item (chunk outgoing) s) e)

send-there :
    (outgoing : List ℕ) (s : Relay)
    → eqb s.receiver 0 ≡ false
    → send outgoing s ≡ accepted (chunk outgoing) s
unfolding send send_item
send-there outgoing s e =
    if_false (eqb s.receiver 0) (record s { downstream_closed = true })
      (send_item (chunk outgoing) s) e
    ∙ if_false (eqb s.receiver 0) s (accepted (chunk outgoing) s) e

send-Runs :
    (ctx : StreamContext) (pending received outgoing : List ℕ) (s : Relay)
    → Runs ctx pending received s
    → (send outgoing s).downstream_closed ≡ false
    → Runs ctx pending (received ++ outgoing) (send outgoing s)
send-Runs ctx pending received outgoing s h k = elim (Bool-cases (eqb s.receiver 0)) [
  | inl e ↦ absurd (ground (arith, send-gone outgoing s e))
  | inr e ↦ rw (send-there outgoing s e) (record {
    ctx_is = h.ctx_is;
    pending_is = h.pending_is;
    received_is =
        sent_bytes-append s.sent (chunk outgoing ∷ [])
        ∙ ap (λ b. sent_bytes s.sent ++ b) (append-nil outgoing)
        ∙ ap (λ b. b ++ outgoing) h.received_is;
    not_failed = h.not_failed;
    not_closed = h.not_closed;
    not_probed = h.not_probed;
  })
]

-- The bytes come after others.
abbrev pub shift : List ℕ → Option (StreamContext × List ℕ) → Option (StreamContext × List ℕ)
shift out none = none
shift out (some last) = some (last.0, out ++ last.1)

-- What the log and the usage take of a stream does not show in it.
pub also :
    (ctx : StreamContext) (pending received : List ℕ) (s : Relay)
    (usage_acc : StreamTokenAccumulator) (up down : Capture) (stream_debug : StreamDebugState)
    → Runs ctx pending received s
    → Runs ctx pending received (record s {
      usage_acc = usage_acc;
      upstream_response = up;
      transformed_response = down;
      stream_debug = stream_debug;
    })
also ctx pending received s usage_acc up down stream_debug h = record {
  ctx_is = h.ctx_is;
  pending_is = h.pending_is;
  received_is = h.received_is;
  not_failed = h.not_failed;
  not_closed = h.not_closed;
  not_probed = h.not_probed;
}

module _ (setup : Setup) where
  -- What the events are converted to, unless one of them fails.
  unfoldable pub translate : List (List ℕ) → StreamContext → Option (StreamContext × List ℕ)
  translate [] ctx = some (ctx, [])
  translate (event ∷ events) ctx = elim (setup.transform_sse_event event ctx).1 [
    | err message ↦ none
    | ok converted ↦ shift converted (translate events (setup.transform_sse_event event ctx).0)
  ]

  pub fail_failed :
      (counted : Bool) (message : String) (s : Relay)
      → (fail setup counted message s).stream_failed ≡ true
  unfolding fail send_item deliver send
  fail_failed counted message s = ground arith

  pub deliver-Runs :
      (ctx : StreamContext) (pending received outgoing : List ℕ) (s : Relay)
      → Runs ctx pending received s
      → (deliver setup outgoing s).downstream_closed ≡ false
      → Runs ctx pending (received ++ outgoing) (deliver setup outgoing s)
  unfolding deliver
  deliver-Runs ctx pending received outgoing s h k =
      send-Runs ctx pending received outgoing (captured setup outgoing s)
        (also ctx pending received s _ _ _ _ h) k

  forward-stop :
      (bytes : List ℕ) (rest : List (List ℕ)) (s : Relay)
      → (deliver setup bytes (count_send setup s)).downstream_closed ≡ true
      → (forward setup (bytes ∷ rest) s).downstream_closed ≡ true
  unfolding forward
  forward-stop bytes rest s e =
      let t = deliver setup bytes (count_send setup s) in
      ap (λ r. r.downstream_closed) (if_true t.downstream_closed t (forward setup rest t) e) ∙ e

  pub forward-go :
      (bytes : List ℕ) (rest : List (List ℕ)) (s : Relay)
      → (deliver setup bytes (count_send setup s)).downstream_closed ≡ false
      → forward setup (bytes ∷ rest) s
        ≡ forward setup rest (deliver setup bytes (count_send setup s))
  unfolding forward
  forward-go bytes rest s e =
      let t = deliver setup bytes (count_send setup s) in
      if_false t.downstream_closed t (forward setup rest t) e

  -- The chunks of a read go out one after the other.
  pub forward-Runs :
      (ctx : StreamContext) (pending received : List ℕ) (outgoing : List (List ℕ)) (s : Relay)
      → Runs ctx pending received s
      → (forward setup outgoing s).downstream_closed ≡ false
      → Runs ctx pending (received ++ concat outgoing) (forward setup outgoing s)
  unfolding forward
  forward-Runs ctx pending received [] s h k = rw (append-nil received) h
  forward-Runs ctx pending received (bytes ∷ rest) s h k =
      let t = deliver setup bytes (count_send setup s) in
      elim (Bool-cases t.downstream_closed) [
        | inl e ↦ absurd (ground (arith, forward-stop bytes rest s e))
        | inr e ↦
            let counted = also ctx pending received s _ _ _ _ h in
            let step = deliver-Runs ctx pending received bytes (count_send setup s) counted e in
            let go = forward-go bytes rest s e in
            rw (go, sym (append_assoc received bytes (concat rest)))
              (forward-Runs ctx pending (received ++ bytes) rest t step
                (sym (ap (λ r. r.downstream_closed) go) ∙ k))
      ]
