-- ===== src/Source.antt =====
-- internal/source/source.go: what a log adapter gives the witness core.
use kt_witness.Common.{ℕ, String, Bool, Option, List}
use kt_witness.Store.Db.{Hash, Time, Bytes}

-- Ordered from the weakest to the strongest; `tier_rank` is the constant's value.
pub data Tier : Type 0 where
  signed_head a a_plus b b_plus : Tier

abbrev pub tier_rank : Tier → ℕ
tier_rank signed_head = 1
tier_rank a = 2
tier_rank a_plus = 3
tier_rank b = 4
tier_rank b_plus = 5

-- `Note` is the parsed note of golang.org/x/mod/sumdb/note. A head that the witness makes out of its
-- stored record has none.
pub record Head (Note : Type 0) : Type 0 where
  pub origin : String
  pub size : ℕ
  pub hash : Hash
  pub signed : Bytes
  pub note : Option Note
  pub cosigners : List String
  pub fetched_at : Time

-- The reason is the fixed part of the message, without the numbers that the code prints into it.
pub record ForkError (Note : Type 0) : Type 0 where
  pub origin : String
  pub reason : String
  pub prev : Option (Head Note)
  pub next : Option (Head Note)

-- What a call that may fail gives: a value, positive evidence of misbehaviour, or any other error.
pub data Answer {ℓ} (Note : Type 0) (A : Type ℓ) : Type ℓ where
  value : A → Answer Note A
  contradiction : ForkError Note → Answer Note A
  failed : Answer Note A

-- One witnessed log, as one round sees it: the answers it would get from each call. `refresh_now` is
-- absent in an adapter that is no Refresher.
pub record Source (Note : Type 0) : Type 0 where
  pub origin : String
  pub tier : Tier
  pub derived_head : Bool
  pub fetch : Option (Head Note) → Answer Note (Head Note)
  pub verify_consistency : Option (Head Note) → Head Note → Answer Note (Unit {0})
  pub refresh_now : Option Bool
