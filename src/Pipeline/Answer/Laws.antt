-- ===== src/Pipeline/Answer/Laws.antt =====
-- The answers of proxy/pipeline.rs, with what the metrics and the log make of them.
use ai_open_router.Prelude.{
  ℕ, String, ◌≡◌, refl, sym, ◌≤◌, ◌<◌, ◌⊎◌, Option, none, some, List, [], ◌∷◌, leb, subst, Result,
  ok, Bool-cases, inl, inr, if◌then◌else◌, if_true, Occurs, All-Occurs, All,
}
use ai_open_router.Json.{Value}
use ai_open_router.Entities.{TokenUsage}
use ai_open_router.Observability.Metrics.{increment_error, add_latency}
use ai_open_router.Observability.Metrics.Laws.{total, weight_errors}
use ai_open_router.Observability.Stream.{into_token_usage}
use ai_open_router.Pipeline.Answer.{
  success, upstream_error, Completion, map_response_body, stream_metrics, stream_log_status,
  usage_event, then_event,
}
use ai_open_router.Pipeline.Relay.{Setup, io_error, Read, Relay, relay}
use ai_open_router.Pipeline.Relay.Honesty.{IsChunk, relay-IsHonest}

-- An answer that succeeds: the upstream's status is no error, its text is JSON, and no error is
-- counted.
pub record Succeeds (from_str : String → Option Value)
    (transform_response : Value → Result String Value) (upstream_status : ℕ)
    (text : Result String String) (c : Completion) : Type 0 where
  pub fine : upstream_status < 400
  pub body : String
  pub text_is : text ≡ ok body
  pub json : Value
  pub parsed : from_str body ≡ some json
  pub answer_is : c.answer ≡ success (map_response_body transform_response json)
  pub no_error : total weight_errors c.metrics ≡ 0

-- An answer that fails: it has an error status, which is the upstream's own or 502, and one error
-- is counted.
pub record Fails (upstream_status : ℕ) (c : Completion) : Type 0 where
  pub status : ℕ
  pub message : String
  pub status_is : (status ≡ 502) ⊎ ((status ≡ upstream_status) × (400 ≤ upstream_status))
  pub answer_is : c.answer ≡ upstream_error status message (some upstream_status)
  pub counted : c.metrics ≡ increment_error ∷ []

module _ (from_str : String → Option Value) (transform_response : Value → Result String Value)
    (upstream_status elapsed_ms : ℕ) where
  abbrev pub Outcome : Result String String → Completion → Type 0
  Outcome text c =
      Succeeds from_str transform_response upstream_status text c ⊎ Fails upstream_status c

-- If a relay that has sent nothing sends its client an error, the log has the stream with status
-- 502, whatever the upstream's status.
pub relay-error_logged :
    (setup : Setup) (reads : List Read) (s : Relay) (message : String) (upstream_status : ℕ)
    → s.sent ≡ []
    → Occurs (io_error message) (relay setup reads s).sent
    → stream_log_status upstream_status (relay setup reads s) ≡ 502
unfolding stream_log_status
relay-error_logged setup reads s message upstream_status fresh m =
    let t = relay setup reads s in
    let honest = relay-IsHonest setup reads s (λ _. subst (All IsChunk) (sym fresh) tt) in
    elim (Bool-cases t.stream_failed) [
      | inl e ↦ if_true t.stream_failed 502 _ e
      | inr e ↦ absurd (All-Occurs IsChunk t.sent (io_error message) (honest e) m)
    ]

module _ (from_str : String → Option Value) (upstream_status elapsed_ms : ℕ) where
  one_error_in :
      (usage : Option TokenUsage)
      → total weight_errors
          (then_event (then_event (usage_event usage) (add_latency elapsed_ms)) increment_error)
        ≡ 1
  one_error_in none = refl
  one_error_in (some usage) = refl

  none_in :
      (usage : Option TokenUsage)
      → total weight_errors (then_event (usage_event usage) (add_latency elapsed_ms)) ≡ 0
  none_in none = refl
  none_in (some usage) = refl

  -- At the end of a stream one error is counted if its status in the log is 400 or above, and
  -- none otherwise.
  pub stream_metrics-errors :
      (s : Relay)
      → total weight_errors (stream_metrics from_str upstream_status elapsed_ms s)
        ≡ (if leb 400 (stream_log_status upstream_status s) then 1 else 0)
  unfolding stream_metrics stream_log_status
  stream_metrics-errors s =
      let usage = into_token_usage from_str s.usage_acc in
      elim (Bool-cases s.stream_failed) [
        | inl e ↦ rw (stream_metrics, stream_log_status, e) (one_error_in usage)
        | inr e ↦ elim (Bool-cases (leb 400 upstream_status)) [
          | inl f ↦ rw (stream_metrics, stream_log_status, e, f, f) (one_error_in usage)
          | inr f ↦ rw (stream_metrics, stream_log_status, e, f) (none_in usage)
        ]
      ]
