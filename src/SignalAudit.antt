-- ===== src/SignalAudit.antt =====
-- internal/signalaudit: the replay of Signal's auditor stream.
pub mod Update
pub mod Decode
pub mod Encode
pub mod State
pub mod Wire
pub mod Canonical
pub mod Parts
pub mod RoundTrip
pub mod Tree
pub mod Walk
pub mod Paths
pub mod Soundness
pub mod Log
pub mod Total
pub mod Variants
pub mod Client
pub mod Persist
mod Examples
