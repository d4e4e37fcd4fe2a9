-- ===== src/Signal.antt =====
-- internal/source/signal: the log tree that an auditor and a client of Signal keep.
pub mod Node
pub mod Frontier
pub mod Numbering
pub mod Calculator
pub mod Consistency
pub mod Prefix
pub mod Commitment
pub mod Guide
mod Examples
