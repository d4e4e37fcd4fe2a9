-- ===== src/Store/Heads.antt =====
-- Store.Get and Store.CompareAndSet of internal/store/store.go.
use kt_witness.Common.{
  String, ◌≡◌, Bool, true, false, ◌||◌, not, Option, none, some, arith, ◌==◌, if◌then◌else◌,
}
use kt_witness.Store.Bolt.{Bolt, by_origin}
use kt_witness.Store.Db.{Record, Db, Result, ok, err, raced, transact}

-- The switch of CompareAndSet: true where the stored record is not the expected one.
abbrev pub head_moved : Option Record → Option Record → Bool
head_moved none none = false
head_moved none (some e) = true
head_moved (some c) none = true
head_moved (some c) (some e) = not (c.size == e.size) || not (c.hash == e.hash)

module _ (bolt : Bolt) where
  abbrev pub head_at : Db bolt → String → Option Record
  head_at db origin = bolt.get db.heads (by_origin origin)

  unfoldable pub get : Bool → Db bolt → String → Result (Option Record)
  get commits db origin = (transact commits db db (ok (head_at db origin))).1

  unfoldable pub compare_and_set :
      Bool → Option Record → Record → Db bolt → Db bolt × Result (Unit {0})
  compare_and_set commits expect next db =
      if head_moved (head_at db next.origin) expect
      then transact commits db db (err raced)
      else transact commits db
          (record db { heads = bolt.put db.heads (by_origin next.origin) next }) (ok tt)

  -- A success means that the stored head was the expected one and is now the new one.
  pub compare_and_set-ok :
      (commits : Bool) (expect : Option Record) (next : Record) (db : Db bolt)
      → (compare_and_set commits expect next db).1 ≡ ok tt
      → (head_moved (head_at db next.origin) expect ≡ false)
        × ((compare_and_set commits expect next db).0
            ≡ record db { heads = bolt.put db.heads (by_origin next.origin) next })
  unfolding compare_and_set
  compare_and_set-ok commits expect next db h = ground arith
