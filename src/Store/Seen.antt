-- ===== src/Store/Seen.antt =====
-- Store.RecordSeenWitness of internal/store/peers.go.
use Prim.Native.Nat.{Ordering}
use Prim.Native.String.{compare}
use kt_witness.Common.{
  String, ◌≡◌, refl, Bool, true, false, ◌||◌, ◌&&◌, Option, none, some, List, [], ◌∷◌, ◌++◌, arith,
  ◌==◌, str_eq, str_eq_iff, if◌then◌else◌,
}
use kt_witness.Store.Bolt.{Bolt, by_origin}
use kt_witness.Store.Db.{SeenWitness, Time, Db, Result, ok, transact}

abbrev str_leb : String → String → Bool
str_leb a b = elim (compare a b) [ Ordering.gt ↦ false | _ ↦ true ]

-- sort.Strings
insert : String → List String → List String
insert x [] = x ∷ []
insert x (y ∷ l) = let rest = insert x l in if str_leb x y then x ∷ y ∷ l else y ∷ rest

sort : List String → List String
unfolding insert
sort [] = []
sort (x ∷ l) = insert x (sort l)

unfoldable pub contains : String → List String → Bool
contains o [] = false
contains o (x ∷ l) = str_eq x o || contains o l

contains-insert :
    (o x : String) (l : List String) → contains o (insert x l) ≡ (str_eq x o || contains o l)
unfolding contains insert
contains-insert o x [] = refl
contains-insert o x (y ∷ l) = ground (arith, contains-insert o x l)

contains-sort : (o : String) (l : List String) → contains o (sort l) ≡ contains o l
unfolding contains sort
contains-sort o [] = refl
contains-sort o (x ∷ l) = ground (arith, contains-insert o x (sort l), contains-sort o l)

contains-append :
    (o : String) (l m : List String) → contains o (l ++ m) ≡ (contains o l || contains o m)
unfolding contains
contains-append o [] m = refl
contains-append o (x ∷ l) m = ground (arith, contains-append o l m)

add_origin : String → List String → List String
unfolding contains sort
add_origin o l = if contains o l then l else sort (l ++ o ∷ [])

contains-add_origin :
    (p o : String) (l : List String) → contains p (add_origin o l) ≡ (str_eq o p || contains p l)
unfolding add_origin
contains-add_origin p o l =
    ground (arith, contains-sort p (l ++ o ∷ []), contains-append p l (o ∷ []), str_eq_iff o p)

-- `previous` is the stored record, over which the new one is decoded.
abbrev updated : Option SeenWitness → String → String → Time → SeenWitness
updated none name origin now = record {
  name = name;
  origins = add_origin origin [];
  first = now;
  last = now;
}
updated (some sw) name origin now = record {
  name = name;
  origins = add_origin origin sw.origins;
  first = if sw.first == 0 then now else sw.first;
  last = now;
}

abbrev pub origins_of : Option SeenWitness → List String
origins_of none = []
origins_of (some sw) = sw.origins

contains-updated :
    (o : Option SeenWitness) (name origin log : String) (now : Time)
    → contains log (updated o name origin now).origins
      ≡ (contains log (origins_of o) || str_eq origin log)
contains-updated none name origin log now = ground (arith, contains-add_origin log origin [])
contains-updated (some sw) name origin log now =
    ground (arith, contains-add_origin log origin sw.origins)

module _ (bolt : Bolt) where
  abbrev pub seen_at : Db bolt → String → Option SeenWitness
  seen_at db name = bolt.get db.seen (by_origin name)

  unfoldable pub record_seen_witness :
      Bool → String → String → Time → Db bolt → Db bolt × Result (Unit {0})
  unfolding add_origin
  record_seen_witness commits name origin now db =
      transact commits db
        (record db {
          seen = bolt.put db.seen (by_origin name) (updated (seen_at db name) name origin now);
        })
        (ok tt)

  -- The logs a name was seen on are those it was seen on before and this one, and no other name's
  -- record changes.
  pub record_seen_witness_accumulates :
      (name origin other log : String) (now : Time) (db : Db bolt)
      → contains log (origins_of (seen_at (record_seen_witness true name origin now db).0 other))
        ≡ (contains log (origins_of (seen_at db other)) || (str_eq name other && str_eq origin log))
  unfolding record_seen_witness
  record_seen_witness_accumulates name origin other log now db = ground (
    arith,
    bolt.get-put db.seen (by_origin name) (by_origin other)
        (updated (seen_at db name) name origin now),
    contains-updated (seen_at db name) name origin log now,
    str_eq_iff name other,
  )
