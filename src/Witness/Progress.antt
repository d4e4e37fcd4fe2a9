-- ===== src/Witness/Progress.antt =====
-- A round that meets no obstacle cosigns.
use kt_witness.Common.{
  ◌-◌, ◌≤◌, ◌<◌, ◌≡◌, ◌⊎◌, inl, inr, refl, ◌∙◌, Bool, true, false, Option, none, some, List, [],
  ◌∷◌, String, str_eq_iff, ==_iff, ap, if◌then◌else◌, arith,
}
use kt_witness.Source.{Head, value, Source}
use kt_witness.Store.Bolt.{Bolt}
use kt_witness.Store.Db.{Time, Bytes, Record, PeerAttestation, Db, ok}
use kt_witness.Store.Heads.{head_at, head_moved, get, compare_and_set}
use kt_witness.Store.Forks.{poison_at, is_forked}
use kt_witness.Store.Peers.{record_peer}
use kt_witness.Store.Seen.{record_seen_witness}
use kt_witness.Witness.Types.{
  Witness, PeerVerifier, Round, Outcome, done, fails, wrong_origin, head_from, prev_of,
}
use kt_witness.Witness.Process.{
  gate, too_old, attested, record_names, record_attestations, observe_signed, observe_peers,
  store_cosigned, cosign, proven, after_gate, after_fetch, after_get, after_check, process,
}
use kt_witness.Witness.Gate.{RefreshDue, gate-go_on_iff}
use kt_witness.Witness.Safety.{signed_record, cosign-stored}

head_moved_same : (r : Option Record) → head_moved r r ≡ false
head_moved_same none = refl
head_moved_same (some r) = ground (arith, ==_iff r.size r.size, ==_iff r.hash r.hash)

-- What is recorded of peers leaves the heads alone, whether it is written or not.
module _ (bolt : Bolt) (rd : Round bolt) (o : String) where
  record_seen_witness-heads :
      (commits : Bool) (name origin : String) (now : Time) (db : Db bolt)
      → head_at bolt (record_seen_witness bolt commits name origin now db).0 o ≡ head_at bolt db o
  unfolding record_seen_witness
  record_seen_witness-heads true name origin now db = refl
  record_seen_witness-heads false name origin now db = refl

  record_peer-heads :
      (commits : Bool) (a : PeerAttestation) (db : Db bolt)
      → head_at bolt (record_peer bolt commits a db).0 o ≡ head_at bolt db o
  unfolding record_peer
  record_peer-heads true a db = refl
  record_peer-heads false a db = refl

  record_names-heads :
      (origin : String) (names : List String) (db : Db bolt)
      → head_at bolt (record_names bolt rd origin names db) o ≡ head_at bolt db o
  unfolding record_names
  record_names-heads origin [] db = refl
  record_names-heads origin (name ∷ rest) db =
      record_names-heads origin rest _
      ∙ record_seen_witness-heads (rd.write_seen name) name origin rd.now_seen db

  record_attestations-heads :
      (l : List PeerAttestation) (db : Db bolt)
      → head_at bolt (record_attestations bolt rd l db) o ≡ head_at bolt db o
  unfolding record_attestations
  record_attestations-heads [] db = refl
  record_attestations-heads (a ∷ rest) db =
      record_attestations-heads rest _ ∙ record_peer-heads (rd.write_seen a.witness) a db

  observe_signed-heads :
      (peers : Option PeerVerifier) (signed : Bytes) (origin : String) (db : Db bolt)
      → head_at bolt (observe_signed bolt peers signed rd origin db) o ≡ head_at bolt db o
  unfolding observe_signed
  observe_signed-heads none signed origin db = refl
  observe_signed-heads (some p) [] origin db = refl
  observe_signed-heads (some p) (x ∷ signed) origin db =
      record_attestations-heads (attested (p.observe origin (x ∷ signed))) _
      ∙ record_names-heads origin (p.unverifiable origin (x ∷ signed)) db

module _ (bolt : Bolt) {Note : Type 0} (w : Witness Note) (src : Source Note) (rd : Round bolt)
    (db : Db bolt) where
  abbrev pub cosigned_outcome : Head Note → Bytes → Bool → Outcome
  cosigned_outcome next bytes refresh = record {
    origin = src.origin;
    tier = src.tier;
    size = next.size;
    cosigned = true;
    unchanged = false;
    refreshed = refresh;
    note = bytes;
  }

  -- The tree is new and the log's proof of it holds, or it has grown and the log proves that, or it is
  -- the witnessed tree and a refresh is due.
  abbrev pub IsProgress : Option Record → Head Note → Bool → Type 0
  IsProgress none next refresh = (src.verify_consistency none next ≡ value tt) × (refresh ≡ false)
  IsProgress (some r) next refresh =
      ((r.size < next.size)
        × (src.verify_consistency (some (head_from r)) next ≡ value tt)
        × (refresh ≡ false))
      ⊎ ((next.size ≡ r.size)
          × (next.hash ≡ r.hash)
          × RefreshDue w src rd.now_refresh r next
          × (refresh ≡ true))

  -- What a round needs of the log, the database and the clock. The poison marker is only wanted clear
  -- when the round begins; others may write what they like in the meantime, but not the log's head.
  pub record Unobstructed (rec : Option Record) (next : Head Note) (bytes : Bytes) (refresh : Bool)
      : Type 0 where
    pub unforked : poison_at bolt db src.origin ≡ none
    pub reads_forked : rd.read_forked ≡ true
    pub reads_head : rd.read_head ≡ true
    pub writes_head : rd.write_head ≡ true
    pub witnessed : head_at bolt db src.origin ≡ rec
    pub fetched : src.fetch (prev_of rec) ≡ value next
    pub own_origin : next.origin ≡ src.origin
    pub progress : IsProgress rec next refresh
    pub fresh : (w.max_sign_delay ≡ 0) ⊎ (rd.now_fresh - next.fetched_at ≤ w.max_sign_delay)
    pub signs : w.sign next.note ≡ some bytes
    pub head_kept_fetching :
        (d : Db bolt) → head_at bolt (rd.during_fetch d) src.origin ≡ head_at bolt d src.origin
    pub head_kept_verifying :
        (d : Db bolt) → head_at bolt (rd.during_verify d) src.origin ≡ head_at bolt d src.origin

  observe_peers-heads :
      (next : Head Note) (d : Db bolt)
      → head_at bolt (observe_peers bolt w rd src.origin next d) src.origin
        ≡ head_at bolt d src.origin
  unfolding observe_peers
  observe_peers-heads next d =
      observe_signed-heads bolt rd src.origin w.peers next.signed src.origin _
      ∙ record_names-heads bolt rd src.origin src.origin next.cosigners d

  -- The round comes to the last gate.
  after_gate-cosign :
      (rec : Option Record) (next : Head Note) (refresh : Bool) (d : Db bolt)
      → IsProgress rec next refresh
      → after_gate bolt w src rd next rec (gate w src rd.now_refresh rec next) d
        ≡ cosign bolt w src rd next rec refresh d
  unfolding after_gate proven gate
  after_gate-cosign none next refresh d (proof, flag) = rw (flag, gate, proof) refl
  after_gate-cosign (some r) next refresh d (inl (grown, proof, flag)) =
      rw ((gate-go_on_iff w src rd.now_refresh r next refresh).1 (inl (grown, flag)), flag, proof)
        refl
  after_gate-cosign (some r) next refresh d (inr (size, hash, due, flag)) =
      rw
        ((gate-go_on_iff w src rd.now_refresh r next refresh).1 (inr (size, hash, due, flag)), flag)
        refl

  not_too_old :
      (next : Head Note)
      → (w.max_sign_delay ≡ 0) ⊎ (rd.now_fresh - next.fetched_at ≤ w.max_sign_delay)
      → too_old w rd.now_fresh next ≡ false
  not_too_old next h = ground arith

  cosign-signed :
      (rec : Option Record) (next : Head Note) (bytes : Bytes) (refresh : Bool) (d : Db bolt)
      → head_at bolt d src.origin ≡ rec
      → (w.max_sign_delay ≡ 0) ⊎ (rd.now_fresh - next.fetched_at ≤ w.max_sign_delay)
      → w.sign next.note ≡ some bytes
      → rd.write_head ≡ true
      → (cosign bolt w src rd next rec refresh d).1 ≡ done (cosigned_outcome next bytes refresh)
  unfolding cosign store_cosigned compare_and_set
  cosign-signed rec next bytes refresh d kept fresh signs writes =
      rw (not_too_old next fresh, signs, kept, head_moved_same rec, writes) refl

  -- The database when the round comes to write.
  abbrev at_write : Head Note → Db bolt
  at_write next = rd.during_verify (observe_peers bolt w rd src.origin next (rd.during_fetch db))

  module _ (rec : Option Record) (next : Head Note) (bytes : Bytes) (refresh : Bool)
      (u : Unobstructed rec next bytes refresh) where
    at_write-heads : head_at bolt (at_write next) src.origin ≡ rec
    at_write-heads =
        u.head_kept_verifying _ ∙ observe_peers-heads next _ ∙ u.head_kept_fetching db ∙ u.witnessed

    reads_unforked : is_forked bolt rd.read_forked db src.origin ≡ ok false
    unfolding is_forked
    reads_unforked = rw (u.reads_forked, u.unforked) refl

    reads_witnessed : get bolt rd.read_head db src.origin ≡ ok rec
    unfolding get
    reads_witnessed = rw (u.reads_head, u.witnessed) refl

    process-cosign :
        process bolt w src rd db ≡ cosign bolt w src rd next rec refresh (at_write next)
    unfolding process after_check after_get after_fetch
    process-cosign =
        ap (λ r. after_check bolt w src rd r db) reads_unforked
        ∙ ap (λ r. after_get bolt w src rd r db) reads_witnessed
        ∙ ap (λ r. after_fetch bolt w src rd rec r (rd.during_fetch db)) u.fetched
        ∙ ap
            (λ b.
              if b
              then after_gate bolt w src rd next rec (gate w src rd.now_refresh rec next)
                  (at_write next)
              else (at_write next, fails wrong_origin))
            ((str_eq_iff next.origin src.origin).1 u.own_origin)
        ∙ after_gate-cosign rec next refresh (at_write next) u.progress

    -- A round cosigns the head that the log serves, and stores it, where its reads and its write
    -- succeed, the log is not poisoned when it begins, the head is of the log's own origin and is
    -- progress, the clock finds it fresh, signing gives these bytes, and the others that use the
    -- database meanwhile leave this log's head as it is, whatever else they write.
    pub process-cosigns :
        ((process bolt w src rd db).1 ≡ done (cosigned_outcome next bytes refresh))
        × (head_at bolt (process bolt w src rd db).0 src.origin
            ≡ some (signed_record bolt w src rd next bytes))
    process-cosigns =
        let signed =
          cosign-signed rec next bytes refresh (at_write next) at_write-heads u.fresh u.signs
            u.writes_head in
        (
          ap (λ r. r.1) process-cosign ∙ signed,
          ap (λ r. head_at bolt r.0 src.origin) process-cosign
              ∙ cosign-stored bolt w src rd next rec refresh (at_write next)
                  (cosigned_outcome next bytes refresh) signed,
        )
