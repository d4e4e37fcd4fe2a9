-- ===== src/Witness/Refusal.antt =====
-- When the witness accuses a log, and that it never signs for that log again.
use kt_witness.Common.{
  All, ◌≡◌, ◌≢◌, refl, Bool, true, false, Option, none, some, List, arith, str_eq, str_eq_iff,
  Bool-cases, inl, inr,
}
use kt_witness.Source.{Head, ForkError, Answer, value, contradiction, failed, Source}
use kt_witness.Store.Bolt.{Bolt, by_origin}
use kt_witness.Store.Db.{Time, Record, Db, Result, ok, err}
use kt_witness.Store.Forks.{is_some, poison_at, is_forked, record_fork}
use kt_witness.Witness.Types.{
  Witness, Round, Returns, done, fails, fork, Gate, stop, accuse, unchanged, go_on, prev_of,
}
use kt_witness.Witness.Process.{
  gate, report_fork, store_cosigned, cosign, proven, after_gate, after_fetch, after_get,
  after_check, process,
}
use kt_witness.Witness.History.{Turn, run_rounds, run_rounds-Advances, IsShared}

-- Withheld: the round neither cosigns nor reports the tree as unchanged.
abbrev pub IsRefused : {Note : Type 0} → Returns Note → Type 0
IsRefused (done o) = ⊥
IsRefused (fails e) = Unit

module _ (bolt : Bolt) {Note : Type 0} (w : Witness Note) (src : Source Note)
    (rd : Round bolt) where
  -- A poisoned log: the round fails and changes nothing.
  pub poisoned-IsRefused :
      (db : Db bolt)
      → is_some (poison_at bolt db src.origin) ≡ true
      → IsRefused (process bolt w src rd db).1 × ((process bolt w src rd db).0 ≡ db)
  unfolding process is_forked after_check
  poisoned-IsRefused db h = elim (Bool-cases rd.read_forked) [
    | inl reads ↦ rw (reads, h) (tt, refl)
    | inr broken ↦ rw broken (tt, refl)
  ]

  -- A result that is fork evidence has poisoned the log that the evidence names.
  Accuses : Db bolt × Returns Note → Type 0
  Accuses res =
      (fe : ForkError Note)
      → rd.write_fork ≡ true
      → res.1 ≡ fails (fork fe)
      → is_some (poison_at bolt res.0 fe.origin) ≡ true

  report_fork-Accuses : (fe : ForkError Note) (db : Db bolt) → Accuses (report_fork bolt rd fe db)
  unfolding report_fork record_fork Accuses
  report_fork-Accuses fe db fe' h e =
      let same : fe ≡ fe' = cc in
      rw (← same) (
        ground (
          arith,
          bolt.get-put db.poisoned (by_origin fe.origin) (by_origin fe.origin) rd.now_fork,
          str_eq_iff fe.origin fe.origin,
        ))

  cosign-Accuses :
      (next : Head Note) (rec : Option Record) (refresh : Bool) (db : Db bolt)
      → Accuses (cosign bolt w src rd next rec refresh db)
  unfolding cosign store_cosigned Accuses
  cosign-Accuses next rec refresh db fe h e = ground arith

  proven-Accuses :
      (next : Head Note) (rec : Option Record) (answer : Answer Note Unit) (db : Db bolt)
      → Accuses (proven bolt w src rd next rec answer db)
  unfolding proven
  proven-Accuses next rec (contradiction fe) db = report_fork-Accuses fe db
  proven-Accuses next rec failed db = unfold Accuses in λ fe h e. cc
  proven-Accuses next rec (value u) db = cosign-Accuses next rec false db

  gate-stop :
      (now : Time) (rec : Option Record) (next : Head Note) (fe : ForkError Note)
      → gate w src now rec next ≢ stop (fork fe)
  unfolding gate
  gate-stop now none next fe = λ h. cc
  gate-stop now (some r) next fe = λ h. ground arith

  after_gate-Accuses :
      (next : Head Note) (rec : Option Record) (g : Gate Note) (db : Db bolt)
      → ((fe : ForkError Note) → g ≢ stop (fork fe))
      → Accuses (after_gate bolt w src rd next rec g db)
  unfolding after_gate
  after_gate-Accuses next rec (stop e) db n =
      unfold Accuses in λ fe h q. absurd (n fe (ground arith))
  after_gate-Accuses next rec (accuse fe) db n = report_fork-Accuses fe db
  after_gate-Accuses next rec unchanged db n = unfold Accuses in λ fe h q. cc
  after_gate-Accuses next rec (go_on true) db n = cosign-Accuses next rec true db
  after_gate-Accuses next rec (go_on false) db n = proven-Accuses next rec _ db

  after_fetch-Accuses :
      (rec : Option Record) (answer : Answer Note (Head Note)) (db : Db bolt)
      → Accuses (after_fetch bolt w src rd rec answer db)
  unfolding after_fetch
  after_fetch-Accuses rec (contradiction fe) db = report_fork-Accuses fe db
  after_fetch-Accuses rec failed db = unfold Accuses in λ fe h q. cc
  after_fetch-Accuses rec (value next) db = elim (Bool-cases (str_eq next.origin src.origin)) [
    | inl same ↦ rw same (after_gate-Accuses next rec _ _ (gate-stop rd.now_refresh rec next))
    | inr other ↦ rw other (unfold Accuses in λ fe h q. cc)
  ]

  after_get-Accuses :
      (r : Result (Option Record)) (db : Db bolt) → Accuses (after_get bolt w src rd r db)
  unfolding after_get
  after_get-Accuses (err e) db = unfold Accuses in λ fe h q. cc
  after_get-Accuses (ok rec) db =
      after_fetch-Accuses rec (src.fetch (prev_of rec)) (rd.during_fetch db)

  after_check-Accuses : (r : Result Bool) (db : Db bolt) → Accuses (after_check bolt w src rd r db)
  unfolding after_check
  after_check-Accuses (err e) db = unfold Accuses in λ fe h q. cc
  after_check-Accuses (ok true) db = unfold Accuses in λ fe h q. cc
  after_check-Accuses (ok false) db = after_get-Accuses _ db

  -- A round that returns fork evidence has poisoned the log that the evidence names, if bbolt carried
  -- the write out.
  pub fork-Poisoned :
      (db : Db bolt) (fe : ForkError Note)
      → rd.write_fork ≡ true
      → (process bolt w src rd db).1 ≡ fails (fork fe)
      → is_some (poison_at bolt (process bolt w src rd db).0 fe.origin) ≡ true
  unfolding process Accuses
  fork-Poisoned db fe h e = after_check-Accuses _ db fe h e

module _ (bolt : Bolt) {Note : Type 0} where
  -- After a round has returned fork evidence about a log and bbolt has stored it, every later round of
  -- that log is refused, whatever rounds of this and other logs came in between, as
  -- long as others change the database only as the witness may.
  pub fork-forever :
      (w : Witness Note) (src : Source Note) (rd : Round bolt) (db : Db bolt) (fe : ForkError Note)
      (between : List (Turn bolt Note)) (w' : Witness Note) (again : Source Note) (rd' : Round bolt)
      → rd.write_fork ≡ true
      → (process bolt w src rd db).1 ≡ fails (fork fe)
      → again.origin ≡ fe.origin
      → All (IsShared bolt) between
      → IsRefused
          (process bolt w' again rd' (run_rounds bolt between (process bolt w src rd db).0)).1
  fork-forever w src rd db fe between w' again rd' commits e same shared =
      (poisoned-IsRefused bolt w' again rd' _ (
        rw same (
          (run_rounds-Advances bolt between _ shared).kept fe.origin
            (fork-Poisoned bolt w src rd db fe commits e)))).0
