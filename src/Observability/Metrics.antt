-- ===== src/Observability/Metrics.antt =====
-- proxy/observability.rs, `MetricsState`: atomic counters of 64 bits, which wrap.
pub mod Laws
use ai_open_router.Prelude.{
  ℕ, String, ◌+◌, ◌/◌, ◌%◌, Bool, Option, none, some, List, [], ◌∷◌, eqb, if◌then◌else◌,
}
use ai_open_router.Entities.{TokenUsage, ProxyMetrics}

abbrev pub u64_mod : ℕ
u64_mod = 0x10000000000000000

pub record MetricsState : Type 0 where
  pub requests : ℕ
  pub stream_requests : ℕ
  pub errors : ℕ
  pub total_latency_ms : ℕ
  pub input_tokens : ℕ
  pub output_tokens : ℕ
  pub cache_read_tokens : ℕ
  pub cache_write_tokens : ℕ
  pub uptime_started_at : Option String

unfoldable pub new : MetricsState
new = record {
  requests = 0;
  stream_requests = 0;
  errors = 0;
  total_latency_ms = 0;
  input_tokens = 0;
  output_tokens = 0;
  cache_read_tokens = 0;
  cache_write_tokens = 0;
  uptime_started_at = none;
}

-- `fetch_add` on an `AtomicU64`.
abbrev pub fetch_add : ℕ → ℕ → ℕ
fetch_add counter n = (counter + n) % u64_mod

unfoldable pub snapshot : MetricsState → ProxyMetrics
snapshot m = record {
  requests = m.requests;
  stream_requests = m.stream_requests;
  errors = m.errors;
  avg_latency_ms = if eqb m.requests 0 then 0 else m.total_latency_ms / m.requests;
  input_tokens = m.input_tokens;
  output_tokens = m.output_tokens;
  cache_read_tokens = m.cache_read_tokens;
  cache_write_tokens = m.cache_write_tokens;
  uptime_started_at = m.uptime_started_at;
}

-- The calls that change the state; `mark_started` is given the time.
pub data Event : Type 0 where
  mark_started : String → Event
  mark_stopped increment_error : Event
  increment_request : Bool → Event
  add_latency : ℕ → Event
  add_token_usage : TokenUsage → Event

unfoldable pub apply : Event → MetricsState → MetricsState
apply (mark_started now) m = record m { uptime_started_at = some now }
apply mark_stopped m = record m { uptime_started_at = none }
apply increment_error m = record m { errors = fetch_add m.errors 1 }
apply (increment_request stream) m = record m {
  requests = fetch_add m.requests 1;
  stream_requests = if stream then fetch_add m.stream_requests 1 else m.stream_requests;
}
apply (add_latency elapsed_ms) m = record m {
  total_latency_ms = fetch_add m.total_latency_ms elapsed_ms;
}
apply (add_token_usage usage) m = record m {
  input_tokens = fetch_add m.input_tokens usage.input_tokens;
  output_tokens = fetch_add m.output_tokens usage.output_tokens;
  cache_read_tokens = fetch_add m.cache_read_tokens usage.cache_read_tokens;
  cache_write_tokens = fetch_add m.cache_write_tokens usage.cache_write_tokens;
}

unfoldable pub apply_all : List Event → MetricsState → MetricsState
unfolding apply
apply_all [] m = m
apply_all (e ∷ es) m = apply_all es (apply e m)
