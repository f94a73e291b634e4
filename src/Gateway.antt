-- ===== src/Gateway.antt =====
-- internal/gateway: the path of a request, from the client to the upstream and back.
pub mod Adapter
pub mod Exchange
pub mod Filter
pub mod Grants
pub mod Handler
pub mod Header
pub mod Limit
pub mod Serve
pub mod Sessions
pub mod Target
pub mod Tests
pub mod Samples
pub mod RelayTests
