-- ===== src/Witness/Types.antt =====
-- The types of internal/witness/witness.go, and what a round takes from outside.
use kt_witness.Common.{ℕ, String, Bool, Option, none, some, List, []}
use kt_witness.Source.{Tier, Head, ForkError}
use kt_witness.Store.Bolt.{Bolt}
use kt_witness.Store.Db.{Time, Bytes, Record, Fork, PeerAttestation, Db, StoreError}

-- cosig.Verifier, as observePeers uses it. `observe` is absent where it returns an error.
pub record PeerVerifier : Type 0 where
  pub unverifiable : String → Bytes → List String
  pub observe : String → Bytes → Option (List PeerAttestation)

-- The fields of Witness. `sign` is note.Sign with the witness's signer, absent where it fails. A
-- duration that is not positive is 0: it switches the check off, as in the source.
pub record Witness (Note : Type 0) : Type 0 where
  pub sign : Option Note → Option Bytes
  pub max_sign_delay : Time
  pub refresh_interval : Time
  pub peers : Option PeerVerifier

pub record Outcome : Type 0 where
  pub origin : String
  pub tier : Tier
  pub size : ℕ
  pub cosigned : Bool
  pub unchanged : Bool
  pub refreshed : Bool
  pub note : Bytes

-- The error that each return of Process gives.
pub data Error (Note : Type 0) : Type 0 where
  store_failed : StoreError → Error Note
  forked_before : Error Note
  fork : ForkError Note → Error Note
  fetch_failed : Error Note
  wrong_origin : Error Note
  derived_regression : Error Note
  regression_unproven : Error Note
  stale_replica : Error Note
  derived_split : Error Note
  unproven : Error Note
  stale : Error Note
  sign_failed : Error Note
  persist_failed : StoreError → Error Note

pub data Returns (Note : Type 0) : Type 0 where
  done : Outcome → Returns Note
  fails : Error Note → Returns Note

-- What a round does not decide: the clock at each reading, whether bbolt carries out each
-- transaction, and what other rounds and processes do to the database while this one waits for the
-- log, in Fetch and in VerifyConsistency.
pub record Round (bolt : Bolt) : Type 0 where
  pub now_seen : Time
  pub now_refresh : Time
  pub now_fresh : Time
  pub now_record : Time
  pub now_fork : Time
  pub read_forked : Bool
  pub read_head : Bool
  pub write_seen : String → Bool
  pub write_fork : Bool
  pub write_head : Bool
  pub during_fetch : Db bolt → Db bolt
  pub during_verify : Db bolt → Db bolt

module _ {Note : Type 0} where
  abbrev pub signed_of : Option (Head Note) → Bytes
  signed_of none = []
  signed_of (some h) = h.signed

  -- The head that the stored record stands for.
  abbrev pub head_from : Record → Head Note
  head_from r = record {
    origin = r.origin;
    size = r.size;
    hash = r.hash;
    signed = r.cosigned;
    note = none;
    cosigners = [];
    fetched_at = 0;
  }

  abbrev pub prev_of : Option Record → Option (Head Note)
  prev_of none = none
  prev_of (some r) = some (head_from r)

  abbrev pub evidence : Time → ForkError Note → Fork
  evidence now fe = record {
    origin = fe.origin;
    reason = fe.reason;
    detected_at = now;
    prev_signed = signed_of fe.prev;
    next_signed = signed_of fe.next;
  }

-- Gate 1: stop with an error or with evidence, report an unchanged tree, or go on, with or without
-- the refresh flag.
pub data Gate (Note : Type 0) : Type 0 where
  stop : Error Note → Gate Note
  accuse : ForkError Note → Gate Note
  unchanged : Gate Note
  go_on : Bool → Gate Note
