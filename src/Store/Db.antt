-- ===== src/Store/Db.antt =====
-- internal/store/store.go: the stored types, the database and the outcome of a transaction. A bucket
-- holds the values that its JSON decodes to. A root or a hash of 32 bytes is the number that it
-- spells, a time is a number of nanoseconds, and a byte string is the list of its bytes.
use kt_witness.Common.{ℕ, String, ◌≡◌, refl, Bool, true, false, List}
use kt_witness.Store.Bolt.{Bolt}

abbrev pub Hash : Type 0
Hash = ℕ

abbrev pub Time : Type 0
Time = ℕ

abbrev pub Bytes : Type 0
Bytes = List ℕ

-- The witness's last cosigned view of a log.
pub record Record : Type 0 where
  pub origin : String
  pub size : ℕ
  pub hash : Hash
  pub cosigned : Bytes
  pub witnessed_at : Time

pub record Fork : Type 0 where
  pub origin : String
  pub reason : String
  pub detected_at : Time
  pub prev_signed : Bytes
  pub next_signed : Bytes

pub record Retraction : Type 0 where
  pub origin : String
  pub reason : String
  pub retracted_at : Time
  pub fork : Fork

pub record EpochCommitment : Type 0 where
  pub epoch_id : ℕ
  pub chain_hash : String
  pub issuance_time : ℕ
  pub first_seen_unix : ℕ

pub record PeerAttestation : Type 0 where
  pub origin : String
  pub witness : String
  pub size : ℕ
  pub root : String
  pub timestamp : ℕ

pub record SeenWitness : Type 0 where
  pub name : String
  pub origins : List String
  pub first : Time
  pub last : Time

-- The buckets that this development follows, one field each.
pub record Db (bolt : Bolt) : Type 0 where
  pub heads : bolt.Bucket Record
  pub forks : bolt.Bucket Fork
  pub poisoned : bolt.Bucket Time
  pub retractions : bolt.Bucket Retraction
  pub epochs : bolt.Bucket EpochCommitment
  pub peers : bolt.Bucket PeerAttestation
  pub seen : bolt.Bucket SeenWitness

pub data StoreError : Type 0 where
  -- bbolt could not begin or commit the transaction
  tx_failed : StoreError
  -- ErrRaced
  raced : StoreError
  reason_required : StoreError
  not_forked : StoreError
  no_evidence : StoreError
  epoch_conflict : EpochCommitment → EpochCommitment → StoreError

pub data Result {ℓ} (A : Type ℓ) : Type ℓ where
  ok : A → Result A
  err : StoreError → Result A

-- db.Update and db.View: `commits` says whether bbolt carries the transaction out. A transaction
-- whose function returns an error is rolled back.
abbrev pub transact {ℓ κ} : {D : Type ℓ} {A : Type κ} → Bool → D → D → Result A → D × Result A
transact false db next r = (db, err tx_failed)
transact true db next (ok a) = (next, ok a)
transact true db next (err e) = (db, err e)

-- A transaction that succeeds left what its function wrote.
pub transact-ok {ℓ κ} :
    {D : Type ℓ} {A : Type κ} (commits : Bool) (db next : D) (r : Result A) {a : A}
    → (transact commits db next r).1 ≡ ok a
    → (r ≡ ok a) × ((transact commits db next r).0 ≡ next)
transact-ok false db next r h = cc
transact-ok true db next (ok b) h = (h, refl)
transact-ok true db next (err e) h = cc
