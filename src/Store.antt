-- ===== src/Store.antt =====
-- internal/store: the witness's database, its buckets as fields of one record, and what each
-- transaction over them does.
pub mod Bolt
pub mod Db
pub mod Heads
pub mod Forks
pub mod Epochs
pub mod Peers
pub mod Seen
pub mod Backoff
pub mod Audits
pub mod Population
pub mod Memory
mod Examples
mod AuditExamples
