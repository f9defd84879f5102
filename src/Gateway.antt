-- ===== src/Gateway.antt =====
-- gateway: the reverse proxy that spreads the requests of a model over its backends.
pub mod Types
pub mod InMem
pub mod Proxy
pub mod Refines
pub mod Order
pub mod Pick
pub mod Handler
pub mod Answer
pub mod Routing
pub mod Retries
pub mod Api
pub mod ClientSet
pub mod Delivery
pub mod Life
mod Samples
mod Tests
mod Requests
mod Wired
