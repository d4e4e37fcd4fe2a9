-- ===== src/Work.antt =====
-- internal/work/work.go: the queue that hands ranges of epochs to workers.
pub mod Queue
pub mod Trim
pub mod Lease
pub mod Results
pub mod Skipped
pub mod Trimmed
pub mod Due
pub mod Separate
pub mod Exclusive
pub mod Answers
pub mod Backoff
mod Examples
