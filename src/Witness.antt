-- ===== src/Witness.antt =====
-- internal/witness/witness.go: the verify, cosign, publish round. `Types` and `Process` hold the
-- model, the other modules its theorems.
pub mod Types
pub mod Process
pub mod History
pub mod Safety
pub mod Refusal
pub mod Gate
pub mod Progress
mod Examples
