-- ===== src/Routing.antt =====
-- proxy/routing.rs: from the path of a request to the upstream provider that serves it.
mod Tests
pub mod Types
pub mod Entry
pub mod Url
pub mod Headers
pub mod Index
pub mod Resolve
