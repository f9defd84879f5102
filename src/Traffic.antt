-- ===== src/Traffic.antt =====
-- From a report of the health informer to the requests on the gateway: the reconciler calls the
-- offloader, which sends the route of the model to the gateway, whose proxy draws the backends.
pub mod Stored
pub mod Failure
pub mod Calls
pub mod Shares
mod Tests
