-- ===== src/Start.antt =====
-- The start of the operator.
pub mod Platform
pub mod Factories
pub mod Options
pub mod Main
pub mod Plan
pub mod Steps
pub mod Pieces
pub mod Loaded
pub mod Ends
pub mod Serving
mod Tests
