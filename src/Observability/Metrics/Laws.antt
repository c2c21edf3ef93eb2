-- ===== src/Observability/Metrics/Laws.antt =====
-- The counters against the totals of the history.
use ai_open_router.Prelude.{
  zero, suc, ℕ, ◌+◌, ◌/◌, ◌<◌, ◌≡◌, refl, true, false, List, [], ◌∷◌, arith, eqb, if◌then◌else◌,
}
use ai_open_router.Entities.{ProxyMetrics}
use ai_open_router.Observability.Metrics.{
  u64_mod, MetricsState, new, snapshot, Event, mark_started, increment_error, increment_request,
  add_latency, add_token_usage, apply, apply_all,
}

-- What one event adds to each counter.
abbrev weight_requests : Event → ℕ
weight_requests (increment_request stream) = 1
weight_requests _ = 0

abbrev weight_streams : Event → ℕ
weight_streams (increment_request stream) = if stream then 1 else 0
weight_streams _ = 0

abbrev pub weight_errors : Event → ℕ
weight_errors increment_error = 1
weight_errors _ = 0

abbrev weight_latency : Event → ℕ
weight_latency (add_latency ms) = ms
weight_latency _ = 0

abbrev weight_input : Event → ℕ
weight_input (add_token_usage usage) = usage.input_tokens
weight_input _ = 0

abbrev weight_output : Event → ℕ
weight_output (add_token_usage usage) = usage.output_tokens
weight_output _ = 0

abbrev weight_cache_read : Event → ℕ
weight_cache_read (add_token_usage usage) = usage.cache_read_tokens
weight_cache_read _ = 0

abbrev weight_cache_write : Event → ℕ
weight_cache_write (add_token_usage usage) = usage.cache_write_tokens
weight_cache_write _ = 0

abbrev pub total : (Event → ℕ) → List Event → ℕ
total weight [] = 0
total weight (e ∷ es) = weight e + total weight es

module _ (read : MetricsState → ℕ) (weight : Event → ℕ)
    (step : (e : Event) (m : MetricsState)
      → read m + weight e < u64_mod
      → read (apply e m) ≡ read m + weight e) where
  counter_total :
      (es : List Event) (m : MetricsState)
      → read m + total weight es < u64_mod
      → read (apply_all es m) ≡ read m + total weight es
  unfolding apply_all
  counter_total [] m h = omega arith
  counter_total (e ∷ es) m h =
      let one = step e m (omega arith) in omega (arith, counter_total es (apply e m) (omega arith))

  counter_from_new :
      (es : List Event)
      → read new ≡ 0
      → total weight es < u64_mod
      → read (apply_all es new) ≡ total weight es
  counter_from_new es z h = omega (arith, counter_total es new (rw z (omega arith)))

step_requests :
    (e : Event) (m : MetricsState)
    → m.requests + weight_requests e < u64_mod
    → (apply e m).requests ≡ m.requests + weight_requests e
unfolding apply
step_requests (mark_started now) m h = omega arith
step_requests (increment_request true) m h = omega arith
step_requests (increment_request false) m h = omega arith
step_requests _ m h = omega arith

step_streams :
    (e : Event) (m : MetricsState)
    → m.stream_requests + weight_streams e < u64_mod
    → (apply e m).stream_requests ≡ m.stream_requests + weight_streams e
unfolding apply
step_streams (mark_started now) m h = omega arith
step_streams (increment_request true) m h = omega arith
step_streams (increment_request false) m h = omega arith
step_streams _ m h = omega arith

step_errors :
    (e : Event) (m : MetricsState)
    → m.errors + weight_errors e < u64_mod
    → (apply e m).errors ≡ m.errors + weight_errors e
unfolding apply
step_errors (mark_started now) m h = omega arith
step_errors (increment_request true) m h = omega arith
step_errors (increment_request false) m h = omega arith
step_errors _ m h = omega arith

step_latency :
    (e : Event) (m : MetricsState)
    → m.total_latency_ms + weight_latency e < u64_mod
    → (apply e m).total_latency_ms ≡ m.total_latency_ms + weight_latency e
unfolding apply
step_latency (mark_started now) m h = omega arith
step_latency (increment_request true) m h = omega arith
step_latency (increment_request false) m h = omega arith
step_latency _ m h = omega arith

step_input :
    (e : Event) (m : MetricsState)
    → m.input_tokens + weight_input e < u64_mod
    → (apply e m).input_tokens ≡ m.input_tokens + weight_input e
unfolding apply
step_input (mark_started now) m h = omega arith
step_input (increment_request true) m h = omega arith
step_input (increment_request false) m h = omega arith
step_input _ m h = omega arith

step_output :
    (e : Event) (m : MetricsState)
    → m.output_tokens + weight_output e < u64_mod
    → (apply e m).output_tokens ≡ m.output_tokens + weight_output e
unfolding apply
step_output (mark_started now) m h = omega arith
step_output (increment_request true) m h = omega arith
step_output (increment_request false) m h = omega arith
step_output _ m h = omega arith

step_cache_read :
    (e : Event) (m : MetricsState)
    → m.cache_read_tokens + weight_cache_read e < u64_mod
    → (apply e m).cache_read_tokens ≡ m.cache_read_tokens + weight_cache_read e
unfolding apply
step_cache_read (mark_started now) m h = omega arith
step_cache_read (increment_request true) m h = omega arith
step_cache_read (increment_request false) m h = omega arith
step_cache_read _ m h = omega arith

step_cache_write :
    (e : Event) (m : MetricsState)
    → m.cache_write_tokens + weight_cache_write e < u64_mod
    → (apply e m).cache_write_tokens ≡ m.cache_write_tokens + weight_cache_write e
unfolding apply
step_cache_write (mark_started now) m h = omega arith
step_cache_write (increment_request true) m h = omega arith
step_cache_write (increment_request false) m h = omega arith
step_cache_write _ m h = omega arith

-- The totals of a history fit 64 bits.
pub record Fits (es : List Event) : Type 0 where
  pub requests : total weight_requests es < u64_mod
  pub streams : total weight_streams es < u64_mod
  pub errors : total weight_errors es < u64_mod
  pub latency : total weight_latency es < u64_mod
  pub input : total weight_input es < u64_mod
  pub output : total weight_output es < u64_mod
  pub cache_read : total weight_cache_read es < u64_mod
  pub cache_write : total weight_cache_write es < u64_mod

-- A snapshot shows the totals of a history; the average latency is the total latency divided by
-- the number of requests (and 0 if there are none).
pub record ShowsTotals (es : List Event) (p : ProxyMetrics) : Type 0 where
  pub requests : p.requests ≡ total weight_requests es
  pub streams : p.stream_requests ≡ total weight_streams es
  pub errors : p.errors ≡ total weight_errors es
  pub input : p.input_tokens ≡ total weight_input es
  pub output : p.output_tokens ≡ total weight_output es
  pub cache_read : p.cache_read_tokens ≡ total weight_cache_read es
  pub cache_write : p.cache_write_tokens ≡ total weight_cache_write es
  pub latency : p.avg_latency_ms ≡ total weight_latency es / total weight_requests es

average : (l r : ℕ) → (if eqb r 0 then 0 else l / r) ≡ l / r
average l zero = omega arith
average l (suc r) = ground arith

-- After a history of events whose totals fit 64 bits, the metrics snapshot shows the totals and
-- the average latency.
pub snapshot-ShowsTotals :
    (es : List Event) → Fits es → ShowsTotals es (snapshot (apply_all es new))
unfolding snapshot new
snapshot-ShowsTotals es fits =
    let requests : (apply_all es new).requests ≡ total weight_requests es =
      counter_from_new (λ m. m.requests) weight_requests step_requests es refl fits.requests in
    let latency : (apply_all es new).total_latency_ms ≡ total weight_latency es =
      counter_from_new (λ m. m.total_latency_ms) weight_latency step_latency es refl fits.latency in
    record {
      requests = requests;
      streams =
          counter_from_new (λ m. m.stream_requests) weight_streams step_streams es refl
            fits.streams;
      errors = counter_from_new (λ m. m.errors) weight_errors step_errors es refl fits.errors;
      input = counter_from_new (λ m. m.input_tokens) weight_input step_input es refl fits.input;
      output =
          counter_from_new (λ m. m.output_tokens) weight_output step_output es refl fits.output;
      cache_read =
          counter_from_new (λ m. m.cache_read_tokens) weight_cache_read step_cache_read es refl
            fits.cache_read;
      cache_write =
          counter_from_new (λ m. m.cache_write_tokens) weight_cache_write step_cache_write es refl
            fits.cache_write;
      latency = rw (requests, latency) (average _ _);
    }
