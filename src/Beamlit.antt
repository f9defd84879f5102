-- ===== src/Beamlit.antt =====
-- internal/beamlit: the client of Beamlit, and internal/controller/helper: what it is sent.
pub mod Types
pub mod Client
pub mod Token
pub mod Login
pub mod Credentials
mod Tests
pub mod Conversion
