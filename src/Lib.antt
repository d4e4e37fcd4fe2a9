-- ===== src/Lib.antt =====
-- A model of the core of kt-witness, a witness for transparency logs: it fetches a log's head, checks
-- it against the head it has stored, has the log prove consistency, cosigns, and keeps evidence of
-- logs that contradict themselves.
--
-- Parts and files
-- - Common: the libraries' names passed on, Boolean tests and lists over the native numbers.
-- - Store: internal/store over bbolt. Store/Bolt is the interface of bbolt that the store relies on,
--   Store/Memory an implementation of it that runs, Store/Db the records and the buckets. Store/Heads
--   has Get and CompareAndSet, Store/Forks RecordFork, IsForked and RetractFork, Store/Epochs
--   RecordEpochCommitment, Store/Peers RecordPeer, Store/Seen RecordSeenWitness. Store/Audits has
--   FirstUnverified, HolesDue and the coverage reports over the records that a log's cursor yields,
--   Store/Population RecordAudit, its count in memory and its trim, Store/Backoff RetryAt.
-- - Source: internal/source/source.go, the interface of a log adapter.
-- - Witness: internal/witness/witness.go. Witness/Process has Process (`process`, in one function per
--   stage: after_check, after_get, after_fetch, gate, after_gate, proven, cosign, store_cosigned),
--   fork (`report_fork`) and observePeers. Witness/Gate, Safety, History, Refusal and Progress hold the
--   proofs.
-- - PbWire: internal/pbwire/pbwire.go. PbWire/Varint, Lenient and RoundTrip hold the proofs.
-- - Signal: internal/source/signal. Signal/Node has node, marshal and treeHash of logtree.go,
--   Signal/Frontier has frontier.go, LogFrontier with Append, Root and NewLogFrontier; below it, Tree is
--   the left-balanced tree that the frontier stands for, and Stack and Refinement hold the proofs.
--   Signal/Numbering has the node numbering of logtree.go, Signal/Calculator its rootCalculator and
--   Signal/Consistency deriveRoot and verifyConsistency.
--   Signal/Guide has implicit.go, the guide of a search for a version of a key; Guide/Earliest its proofs.
--   Signal/Prefix has prefixtree.go, the hashes of the prefix tree, a client's proof and the commitment.
-- - SignalAudit: internal/signalaudit. SignalAudit/Update has the types and validate, Decode has
--   DecodeUpdate and decodeProof, Encode has EncodeUpdate, State has State and Apply, Persist its
--   JSON. Tree is the prefix tree that the state keeps only the root hash of, with the changes that the
--   protocol allows.
-- - Work: internal/work/work.go. Work/Queue has the queue, its leases and what gives them back,
--   Work/Trim trimLeasedLocked and trimDeferredLocked, Work/Lease Lease and scanFor, Work/Results
--   Accept, Reschedule and the counts. Skipped, Trimmed, Due, Separate, Exclusive, Answers and Backoff
--   hold the proofs.
-- - Akd: internal/akdtree. Akd/Label has labels, commonPrefixLen and prefixOf, Akd/Tree Sort, merge,
--   Root, subtree, Roots and VerifyAppendOnly, Akd/Decode Decode, Akd/Ranges nextRecord, FieldRanges,
--   ScanLeading and PayloadOffset. Akd/Verifier has ParseDigest and the verdict of VerifyCached of
--   internal/audit/goverify.go. Akd/Trie is the compressed trie that the recursion hashes, and
--   Akd/Payload the payload bytes of a field, against which PayloadOffset is measured. Bits, Prefixes,
--   Sorted, Order, Range, Built, Rebuilt, AppendOnly, Verdict, Walk, Decoded, Framing, Within,
--   Scanning, Visits, Coalesced and Located hold the proofs.
-- The witness calls the store through transactions, and a log through the record `Source`, whose
-- fields are the answers that one round would get from each call.
--
-- How the code is read
-- - A bucket holds the values that its JSON decodes to, so a value that does not decode and an
--   encoding that fails are left out. Keys are data in place of bytes: origins hold no `|` and no zero
--   byte, which keeps the encoded keys apart.
-- - A 32-byte root or hash of the store and the witness is a number, a time is a number of
--   nanoseconds, a byte string a list of numbers. Sizes are not negative, and a duration that is not
--   positive is 0.
-- - `transact` is db.Update or db.View with a Boolean for whether bbolt carries it out, which
--   covers a failure to begin or to commit.
-- - A `Round` holds what one call of Process does not decide: the clock at each reading, the fate of
--   each transaction, and the changes that others make to the database during Fetch and during
--   VerifyConsistency. Between other statements a round runs alone.
-- - Signing and the checks of cosignatures are parameters (`sign`, `PeerVerifier`), absent where they
--   fail. An error's text keeps only its fixed part; logging is left out.
-- - AppendVarint and strictUvarint run at most ten groups, as in the code. Fields and Parse take as
--   much fuel as there are bytes, which is enough since a field takes at least one.
-- - The elements of LogFrontier.subtrees stand from the last to the first. sha256 is a parameter, a
--   function of byte lists; a theorem assumes at most that it gives 32 bytes.
--   Append's loop recurs on the subtrees it takes.
-- - The loops of the node numbering take 64 or 65 rounds, as many as a uint64 has levels; `stuck` is
--   the outcome of a loop that would need more, as it is for moveWithin with 66 rounds and for
--   frontier, which gives up past 512 nodes. That it never comes up is not proved. poll sorts the
--   entries by id; those of one id stay as they came, which sort.Slice does not promise.
-- - The epochs of one log's audit records ascend in the order of the keys (AuditsInOrder). The inner
--   loops of longestRun and VerifiedRegion take as many rounds as there are keys, since each round meets
--   another key.
-- - An array of bytes is the list of them. Where Apply returns an error its state is what it was, so an
--   error has no state; the reason of an error keeps which check it was and the field, not the text.
-- - The values of the map of leases are a list, in the order of one iteration over it; the proofs hold
--   for every order. The passes of trimLeasedLocked share the order, where Go ranges over the map anew
--   in each; what the loop leaves begins at the first epoch that is on no lease, in whatever order the
--   leases are met. A `Probe` holds what Lease does not decide while the queue is not locked: the
--   answers of the Source, what others do to the queue, and the clock. While it is locked the clock is
--   read once. The loop of trimLeasedLocked takes one round more than there are leases, which is
--   proved to be enough.
-- - A label of 32 bytes is the number that it spells. slices.SortFunc is an insertion sort, which
--   orders elements of one label and length as they come: Go may order them otherwise, and subtree
--   refuses them in any order. sort.Search finds the first index where its test holds, which is what it
--   is documented to find where the test holds from some index on. binary.Uvarint is written out.
--   blake3 is a parameter, on which no theorem assumes anything. subtree takes as many rounds as it is
--   given elements, a walk over bytes as many as there are bytes, and both are proved to be enough.
--
-- Not modelled
-- The histories and app heads of internal/store/store.go and the other buckets; the log adapters under
-- internal/source other than the parts above; the rest of internal/audit; the transport of
-- internal/workrpc; the network, presentation, measurement and configuration code of internal and cmd;
-- generated code; CUDA.
pub mod Akd
pub mod Common
pub mod PbWire
pub mod Signal
pub mod SignalAudit
pub mod Source
pub mod Store
pub mod Witness
pub mod Work
