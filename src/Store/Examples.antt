-- ===== src/Store/Examples.antt =====
-- Tests of internal/store over buckets in memory, and the theorems at concrete inputs.
use mathlib.Core.List.{Mem}
use kt_witness.Common.{ℕ, String, ◌≡◌, ◌≢◌, ◌↔◌, refl, true, [], ◌∷◌}
use kt_witness.Store.Db.{Fork, PeerAttestation, Db}
use kt_witness.Store.Memory.{memory, empty_db}
use kt_witness.Store.Forks.{is_some, poison_at, record_fork, retract_fork}
use kt_witness.Store.Forks.Laws.{Withdrawn, retract_fork-ok}
use kt_witness.Store.Epochs.{Observation, record_epoch_commitment, record_all, one_commitment}
use kt_witness.Store.Peers.{IsRecorded, record_peer, record_peer_exact}

abbrev finding : ℕ → Fork
finding t = record {
  origin = "log";
  reason = "split view";
  detected_at = t;
  prev_signed = [];
  next_signed = [];
}

abbrev accused : Db memory
accused = (record_fork memory true (finding 7) empty_db).0

retract_fork-ok_example :
    (◌≢◌ {A = String} "replica" "")
    × (is_some (poison_at memory accused "log") ≡ true)
    × ((f : Fork) × Withdrawn memory 8 "log" "replica" accused
          (retract_fork memory true 8 "log" "replica" accused).0
          f)
unfolding record_fork retract_fork
retract_fork-ok_example = retract_fork-ok memory 8 "log" "replica" accused true refl

abbrev seen_epoch : String → Observation
seen_epoch hash = record {
  origin = "log";
  epoch_id = 3;
  chain_hash = hash;
  issuance_time = 50;
  now = 60;
  commits = true;
}

one_commitment_example : (◌≡◌ {A = String} "aa" "aa") × (◌≡◌ {A = ℕ} 50 50)
unfolding record_epoch_commitment record_all
one_commitment_example =
    one_commitment memory (seen_epoch "aa") (seen_epoch "aa") (seen_epoch "bb" ∷ []) empty_db refl
      refl refl refl

abbrev attestation : String → String → PeerAttestation
attestation who root = record {
  origin = "log";
  witness = who;
  size = 4;
  root = root;
  timestamp = 1;
}

abbrev attested : Db memory
attested = (record_peer memory true (attestation "w" "r1") empty_db).0

record_peer_exact_example :
    (◌≢◌ {A = String} "r1" "r2" × IsRecorded memory attested "log" 4 (attestation "w" "r1"))
    ↔ Mem (attestation "w" "r1") (attestation "w" "r1" ∷ [])
unfolding record_peer
record_peer_exact_example =
    record_peer_exact memory true (attestation "v" "r2") (attestation "w" "r1") attested
      (attestation "w" "r1" ∷ []) refl
