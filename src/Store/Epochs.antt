-- ===== src/Store/Epochs.antt =====
-- Store.RecordEpochCommitment of internal/store/epochs.go.
use kt_witness.Common.{
  ℕ, String, ◌≡◌, refl, Bool, ◌&&◌, Option, none, some, List, [], ◌∷◌, arith, ◌==◌, str_eq,
  str_eq_iff, if◌then◌else◌, Option-cases, inl, inr,
}
use kt_witness.Store.Bolt.{Bolt, by_number}
use kt_witness.Store.Db.{EpochCommitment, Db, Result, ok, err, epoch_conflict, transact}

-- One call of RecordEpochCommitment: its arguments, the clock it reads, and whether bbolt commits.
pub record Observation : Type 0 where
  pub origin : String
  pub epoch_id : ℕ
  pub chain_hash : String
  pub issuance_time : ℕ
  pub now : ℕ
  pub commits : Bool

abbrev pub commitment : Observation → EpochCommitment
commitment o = record {
  epoch_id = o.epoch_id;
  chain_hash = o.chain_hash;
  issuance_time = o.issuance_time;
  first_seen_unix = o.now;
}

abbrev same_commitment : EpochCommitment → EpochCommitment → Bool
same_commitment p c = str_eq p.chain_hash c.chain_hash && (p.issuance_time == c.issuance_time)

module _ (bolt : Bolt) where
  abbrev pub commitment_at : Db bolt → String → ℕ → Option EpochCommitment
  commitment_at db origin id = bolt.get db.epochs (by_number origin id)

  abbrev write_commitment :
      Option EpochCommitment → Observation → Db bolt → Db bolt × Result (Unit {0})
  write_commitment none o db = (
    record db { epochs = bolt.put db.epochs (by_number o.origin o.epoch_id) (commitment o) },
    ok tt,
  )
  write_commitment (some prev) o db = (
    db,
    (if same_commitment prev (commitment o)
        then ok tt
        else err (epoch_conflict prev (commitment o))),
  )

  unfoldable pub record_epoch_commitment : Observation → Db bolt → Db bolt × Result (Unit {0})
  record_epoch_commitment o db =
      let (db', r) = write_commitment (commitment_at db o.origin o.epoch_id) o db in
      transact o.commits db db' r

  -- A run of observations, whatever each of them returned.
  unfoldable pub record_all : List Observation → Db bolt → Db bolt
  record_all [] db = db
  record_all (o ∷ rest) db = record_all rest (record_epoch_commitment o db).0

  -- What is stored for an epoch is never replaced.
  record_epoch_commitment_keeps :
      (o : Observation) (db : Db bolt) (origin : String) (id : ℕ) (c : EpochCommitment)
      → commitment_at db origin id ≡ some c
      → commitment_at (record_epoch_commitment o db).0 origin id ≡ some c
  unfolding record_epoch_commitment
  record_epoch_commitment_keeps o db origin id c h = ground (
    arith,
    bolt.get-put db.epochs (by_number o.origin o.epoch_id) (by_number origin id) (commitment o),
    str_eq_iff o.origin origin,
  )

  record_all_keeps :
      (os : List Observation) (db : Db bolt) (origin : String) (id : ℕ) (c : EpochCommitment)
      → commitment_at db origin id ≡ some c
      → commitment_at (record_all os db) origin id ≡ some c
  unfolding record_all
  record_all_keeps [] db origin id c h = h
  record_all_keeps (o ∷ os) db origin id c h =
      record_all_keeps os _ origin id c (record_epoch_commitment_keeps o db origin id c h)

  -- A recording that succeeds agrees with what is stored afterwards.
  record_epoch_commitment-ok :
      (o : Observation) (db : Db bolt)
      → (record_epoch_commitment o db).1 ≡ ok tt
      → (c : EpochCommitment) × (commitment_at (record_epoch_commitment o db).0 o.origin o.epoch_id
          ≡ some c)
        × (c.chain_hash ≡ o.chain_hash)
        × (c.issuance_time ≡ o.issuance_time)
  unfolding record_epoch_commitment
  record_epoch_commitment-ok o db h = elim (Option-cases (commitment_at db o.origin o.epoch_id)) [
    | inl new ↦ (
      commitment o,
      ground (
        arith,
        bolt.get-put db.epochs (by_number o.origin o.epoch_id) (by_number o.origin o.epoch_id)
            (commitment o),
        str_eq_iff o.origin o.origin,
      ),
      refl,
      refl,
    )
    | inr (prev, old) ↦ (
      prev,
      ground arith,
      ground (arith, str_eq_iff prev.chain_hash o.chain_hash),
      ground (arith, str_eq_iff prev.chain_hash o.chain_hash),
    )
  ]

  -- Where an observation of an epoch of a log was accepted, a second one of the same epoch and log is
  -- accepted, however many others came in between, only if it carries the chain hash and the issuance
  -- time of the first.
  pub one_commitment :
      (first second : Observation) (between : List Observation) (db : Db bolt)
      → first.origin ≡ second.origin
      → first.epoch_id ≡ second.epoch_id
      → (record_epoch_commitment first db).1 ≡ ok tt
      → (record_epoch_commitment second (record_all between (record_epoch_commitment first db).0)).1
        ≡ ok tt
      → (first.chain_hash ≡ second.chain_hash) × (first.issuance_time ≡ second.issuance_time)
  one_commitment first second between db same_log same_epoch one two =
      let (c, at, hash, time) = record_epoch_commitment-ok first db one in
      let mid : Db bolt = record_all between (record_epoch_commitment first db).0 in
      let kept : commitment_at mid second.origin second.epoch_id ≡ some c =
        rw (← same_log, ← same_epoch) (record_all_keeps between _ _ _ c at) in
      let after = record_epoch_commitment_keeps second mid second.origin second.epoch_id c kept in
      let (d, at', hash', time') = record_epoch_commitment-ok second mid two in
      let same : c ≡ d = cc in (cc, cc)
