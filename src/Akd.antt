-- ===== src/Akd.antt =====
-- internal/akdtree: the append-only proofs of Meta's and WhatsApp's key transparency logs.
pub mod Label
pub mod Bits
pub mod Tree
pub mod Sorted
pub mod Trie
pub mod Prefixes
pub mod Range
pub mod Built
pub mod Order
pub mod Rebuilt
pub mod AppendOnly
pub mod Verdict
pub mod Decode
pub mod Walk
pub mod Decoded
pub mod Verifier
pub mod Ranges
pub mod Framing
pub mod Within
pub mod Scanning
pub mod Visits
pub mod Coalesced
pub mod Payload
pub mod Located
mod Examples
