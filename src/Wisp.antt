-- ===== src/Wisp.antt =====
-- The Wisp protocol: drift-core/src/wisp.
pub mod Types
pub mod Frame
pub mod Mux
pub mod Stream
pub mod StreamIo
mod Examples
