-- ===== src/Pipeline.antt =====
-- proxy/pipeline.rs: what a request must carry, how its body is prepared, and how the bytes of a
-- stream are cut into events and kept for the log.
mod Tests
pub mod Framing
pub mod Capture
pub mod Access
pub mod Request
pub mod Debug
pub mod Probe
pub mod Relay
pub mod Admission
pub mod Answer
