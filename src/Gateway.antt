-- ===== src/Gateway.antt =====
-- services/gateway: the only service that is reachable from outside.
pub mod Routing
pub mod Longest
pub mod Auth
pub mod Limits
pub mod Edge
pub mod Limiting
pub mod Planes
pub mod Headers
pub mod Window
mod Tests
