-- ===== src/Witness/Safety.antt =====
-- When the witness signs, and what it has established by then.
use kt_witness.Common.{
  ◌≤◌, ◌-◌, ◌≡◌, ◌≢◌, refl, sym, ap, ◌∙◌, Bool, true, false, Option, none, some, arith, str_eq,
  str_eq_iff, Bool-cases, inl, inr, ◌⊎◌,
}
use kt_witness.Source.{Head, Answer, value, contradiction, failed, Source}
use kt_witness.Store.Bolt.{Bolt, by_origin}
use kt_witness.Store.Db.{Time, Bytes, Record, Db, Result, ok, err}
use kt_witness.Store.Heads.{head_at, get, compare_and_set-ok}
use kt_witness.Store.Forks.{poison_at, is_forked}
use kt_witness.Witness.Types.{
  Witness, Round, Outcome, done, Gate, stop, accuse, unchanged, go_on, prev_of, head_from,
}
use kt_witness.Witness.Process.{
  gate, too_old, persisted, report_fork, store_cosigned, cosign, proven, after_gate, after_fetch,
  after_get, after_check, process,
}

persisted-done :
    {Note : Type 0} (x : Outcome) (r : Result Unit) (o : Outcome)
    → persisted {Note = Note} x r ≡ done o
    → (r ≡ ok tt) × (x ≡ o)
persisted-done x (ok _) o h = (refl, ground arith)
persisted-done x (err e) o h = cc

module _ (bolt : Bolt) {Note : Type 0} (w : Witness Note) (src : Source Note)
    (rd : Round bolt) where
  -- The record that a round stores when it signs a head.
  abbrev pub signed_record : Head Note → Bytes → Record
  signed_record next bytes = record {
    origin = src.origin;
    size = next.size;
    hash = next.hash;
    cosigned = bytes;
    witnessed_at = rd.now_record;
  }

  -- The tree is the one already witnessed, or the log proved that it extends it.
  abbrev pub Established : Option Record → Head Note → Outcome → Type 0
  Established none next o = src.verify_consistency none next ≡ value tt
  Established (some rec) next o =
      (rec.size ≡ next.size) × (rec.hash ≡ next.hash) × (o.refreshed ≡ true)
      ⊎ (src.verify_consistency (some (head_from rec)) next ≡ value tt)

  -- What holds when a round that began at `db` has cosigned.
  pub record Justified (db : Db bolt) (o : Outcome) : Type 0 where
    pub rec : Option Record
    pub next : Head Note
    pub unforked : poison_at bolt db src.origin ≡ none
    pub witnessed : head_at bolt db src.origin ≡ rec
    pub fetched : src.fetch (prev_of rec) ≡ value next
    pub own_origin : next.origin ≡ src.origin
    pub established : Established rec next o
    pub fresh : w.max_sign_delay ≢ 0 → rd.now_fresh - next.fetched_at ≤ w.max_sign_delay
    pub signature : w.sign next.note ≡ some o.note
    pub stored :
        head_at bolt (process bolt w src rd db).0 src.origin ≡ some (signed_record next o.note)

  -- What the last stage gives when it succeeds.
  record Signed (next : Head Note) (refresh : Bool) (sig : Option Bytes) (o : Outcome)
      (db : Db bolt) : Type 0 where
    signature : sig ≡ some o.note
    refreshed : o.refreshed ≡ refresh
    stored : head_at bolt db src.origin ≡ some (signed_record next o.note)

  store_cosigned-Signed :
      (next : Head Note) (rec : Option Record) (refresh : Bool) (sig : Option Bytes) (db : Db bolt)
      (o : Outcome)
      → (store_cosigned bolt src rd next rec refresh sig db).1 ≡ done o
      → Signed next refresh sig o (store_cosigned bolt src rd next rec refresh sig db).0
  unfolding store_cosigned
  store_cosigned-Signed next rec refresh none db o h = cc
  store_cosigned-Signed next rec refresh (some bytes) db o h =
      let (written, same) = persisted-done _ _ o h in
      record {
        signature = ap (λ (x : Outcome). some x.note) same;
        refreshed = sym (ap (λ (x : Outcome). x.refreshed) same);
        stored =
            rw
              (
                (compare_and_set-ok bolt rd.write_head rec (signed_record next bytes) db written).1,
                head_at,
                ← same,
              )
              (ground (
                arith,
                bolt.get-put db.heads (by_origin src.origin) (by_origin src.origin)
                    (signed_record next bytes),
                str_eq_iff src.origin src.origin,
              ));
      }

  cosign-Signed :
      (next : Head Note) (rec : Option Record) (refresh : Bool) (db : Db bolt) (o : Outcome)
      → (cosign bolt w src rd next rec refresh db).1 ≡ done o
      → (too_old w rd.now_fresh next ≡ false)
        × Signed next refresh (w.sign next.note) o (cosign bolt w src rd next rec refresh db).0
  unfolding cosign
  cosign-Signed next rec refresh db o h = elim (Bool-cases (too_old w rd.now_fresh next)) [
    | inl old ↦ cc (rw old at h)
    | inr fresh ↦ (fresh, rw fresh (store_cosigned-Signed next rec refresh _ db o (rw fresh at h)))
  ]

  -- A head that is cosigned is stored.
  pub cosign-stored :
      (next : Head Note) (rec : Option Record) (refresh : Bool) (db : Db bolt) (o : Outcome)
      → (cosign bolt w src rd next rec refresh db).1 ≡ done o
      → head_at bolt (cosign bolt w src rd next rec refresh db).0 src.origin
        ≡ some (signed_record next o.note)
  cosign-stored next rec refresh db o h = (cosign-Signed next rec refresh db o h).1.stored

  -- The gate let the round go on, and the log proved the rest.
  abbrev Passed : Head Note → Option Record → Gate Note → Outcome → Type 0
  Passed next rec g o =
      (refresh : Bool) × (g ≡ go_on refresh)
      × (o.refreshed ≡ refresh)
      × ((refresh ≡ true) ⊎ (src.verify_consistency (prev_of rec) next ≡ value tt))

  record Final (next : Head Note) (rec : Option Record) (g : Gate Note) (o : Outcome) (db : Db bolt)
      : Type 0 where
    passed : Passed next rec g o
    fresh : too_old w rd.now_fresh next ≡ false
    signature : w.sign next.note ≡ some o.note
    stored : head_at bolt db src.origin ≡ some (signed_record next o.note)

  proven-Final :
      (next : Head Note) (rec : Option Record) (answer : Answer Note (Unit {0})) (db : Db bolt)
      (o : Outcome)
      → src.verify_consistency (prev_of rec) next ≡ answer
      → (proven bolt w src rd next rec answer db).1 ≡ done o
      → Final next rec (go_on false) o (proven bolt w src rd next rec answer db).0
  unfolding proven report_fork
  proven-Final next rec (contradiction fe) db o e h = cc
  proven-Final next rec failed db o e h = cc
  proven-Final next rec (value u) db o e h =
      let (fresh, s) = cosign-Signed next rec false db o h in
      record {
        passed = (false, refl, s.refreshed, inr e);
        fresh = fresh;
        signature = s.signature;
        stored = s.stored;
      }

  after_gate-Final :
      (next : Head Note) (rec : Option Record) (g : Gate Note) (db : Db bolt) (o : Outcome)
      → (after_gate bolt w src rd next rec g db).1 ≡ done o
      → o.cosigned ≡ true
      → Final next rec g o (after_gate bolt w src rd next rec g db).0
  unfolding after_gate report_fork
  after_gate-Final next rec (stop e) db o h c = cc
  after_gate-Final next rec (accuse fe) db o h c = cc
  after_gate-Final next rec unchanged db o h c = ground arith
  after_gate-Final next rec (go_on true) db o h c =
      let (fresh, s) = cosign-Signed next rec true db o h in
      record {
        passed = (true, refl, s.refreshed, inl refl);
        fresh = fresh;
        signature = s.signature;
        stored = s.stored;
      }
  after_gate-Final next rec (go_on false) db o h c = proven-Final next rec _ db o refl h

  -- The refresh flag is set for the witnessed tree only.
  gate-refresh :
      (now : Time) (rec : Option Record) (next : Head Note)
      → gate w src now rec next ≡ go_on true
      → (r : Record) × (rec ≡ some r) × (r.size ≡ next.size) × (r.hash ≡ next.hash)
  unfolding gate
  gate-refresh now none next h = cc
  gate-refresh now (some r) next h = (r, refl, ground arith, ground arith)

  module _ (o : Outcome) (c : o.cosigned ≡ true) where
    record Fetched (rec : Option Record) (answer : Answer Note (Head Note)) (db : Db bolt)
        : Type 0 where
      next : Head Note
      fetched : answer ≡ value next
      own_origin : next.origin ≡ src.origin
      final : Final next rec (gate w src rd.now_refresh rec next) o db

    after_fetch-Fetched :
        (rec : Option Record) (answer : Answer Note (Head Note)) (db : Db bolt)
        → (after_fetch bolt w src rd rec answer db).1 ≡ done o
        → Fetched rec answer (after_fetch bolt w src rd rec answer db).0
    unfolding after_fetch report_fork
    after_fetch-Fetched rec (contradiction fe) db h = cc
    after_fetch-Fetched rec failed db h = cc
    after_fetch-Fetched rec (value next) db h = elim (Bool-cases (str_eq next.origin src.origin)) [
      | inr other ↦ cc (rw other at h)
      | inl same ↦ record {
        next = next;
        fetched = refl;
        own_origin = (str_eq_iff next.origin src.origin).0 same;
        final = rw same (after_gate-Final next rec _ _ o (rw same at h) c);
      }
    ]

    record Read (r : Result (Option Record)) (db : Db bolt) : Type 0 where
      rec : Option Record
      read : r ≡ ok rec
      rest : Fetched rec (src.fetch (prev_of rec)) db

    after_get-Read :
        (r : Result (Option Record)) (db : Db bolt)
        → (after_get bolt w src rd r db).1 ≡ done o
        → Read r (after_get bolt w src rd r db).0
    unfolding after_get
    after_get-Read (err e) db h = cc
    after_get-Read (ok rec) db h = record {
      rec = rec;
      read = refl;
      rest = after_fetch-Fetched rec _ _ h;
    }

    after_check-Read :
        (r : Result Bool) (db : Db bolt)
        → (after_check bolt w src rd r db).1 ≡ done o
        → (r ≡ ok false)
          × Read (get bolt rd.read_head db src.origin) (after_check bolt w src rd r db).0
    unfolding after_check
    after_check-Read (err e) db h = cc
    after_check-Read (ok true) db h = cc
    after_check-Read (ok false) db h = (refl, after_get-Read _ db h)

  Established-of :
      (rec : Option Record) (next : Head Note) (o : Outcome)
      → Passed next rec (gate w src rd.now_refresh rec next) o
      → Established rec next o
  Established-of none next o (refresh, g, f, inl p) =
      let (r, e, size, hash) = gate-refresh rd.now_refresh none next (rw p at g) in cc
  Established-of none next o (refresh, g, f, inr p) = p
  Established-of (some rec) next o (refresh, g, f, inl p) =
      let (r, e, size, hash) = gate-refresh rd.now_refresh (some rec) next (rw p at g) in
      let same : rec ≡ r = cc in
      inl (ap (λ (x : Record). x.size) same ∙ size, ap (λ (x : Record). x.hash) same ∙ hash, f ∙ p)
  Established-of (some rec) next o (refresh, g, f, inr p) = inr p

  -- A round that cosigns began with a log that was not poisoned, fetched a head of that log, found it
  -- to be the witnessed tree or had the log prove that it extends it, was fast enough, and stored
  -- exactly what it returns.
  pub cosigned-Justified :
      (db : Db bolt) (o : Outcome)
      → (process bolt w src rd db).1 ≡ done o
      → o.cosigned ≡ true
      → Justified db o
  unfolding process is_forked get
  cosigned-Justified db o h c =
      let (unforked, read) = after_check-Read o c _ db h in
      let f = read.rest.final in
      record {
        rec = read.rec;
        next = read.rest.next;
        unforked = ground arith;
        witnessed = ground (arith, read.read);
        fetched = read.rest.fetched;
        own_origin = read.rest.own_origin;
        established = Established-of _ _ o f.passed;
        fresh = λ on. ground (arith, f.fresh);
        signature = f.signature;
        stored = f.stored;
      }
