-- ===== src/Observability.antt =====
-- proxy/observability.rs: the counters of the proxy and the token usage of requests and streams.
mod Tests
pub mod Metrics
pub mod Usage
pub mod Stream
