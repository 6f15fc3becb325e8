-- ===== src/Wasm.antt =====
-- drift-wasm: the address of a WebSocket, and the mux that requests share.
pub mod Url
pub mod Connection
mod Examples
