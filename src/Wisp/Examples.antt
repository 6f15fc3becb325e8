-- ===== src/Wisp/Examples.antt =====
-- Runs of the wire format and the mux, and the theorems at concrete inputs.
mod Frames
mod State
mod Muxes
mod Tasks
mod Adapters
