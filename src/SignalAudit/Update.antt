-- ===== src/SignalAudit/Update.antt =====
-- The types, constants and rules of internal/signalaudit/update.go. A ProofKind is a uint8, an array
-- the list of its bytes; the all-zero array stands where the code leaves one unset.
use kt_witness.Common.{
  ℕ, zero, suc, Bool, false, ◌||◌, not, List, [], ◌∷◌, length, ltb, ◌==◌, if◌then◌else◌,
}
use kt_witness.Signal.Node.{Value}

abbrev pub index_size : ℕ
index_size = 32

abbrev pub seed_size : ℕ
seed_size = 16

abbrev pub commitment_size : ℕ
commitment_size = 32

abbrev pub hash_size : ℕ
hash_size = 32

abbrev pub max_copath : ℕ
max_copath = 256

abbrev pub new_tree : ℕ
new_tree = 1

abbrev pub different_key : ℕ
different_key = 3

abbrev pub same_key : ℕ
same_key = 4

abbrev pub zeros : ℕ → List ℕ
zeros zero = []
zeros (suc n) = 0 ∷ zeros n

pub record Update : Type 0 where
  pub real : Bool
  pub index : List ℕ
  pub seed : List ℕ
  pub commitment : List ℕ
  pub proof : ℕ
  pub copath : List Value
  pub old_seed : List ℕ
  pub counter : ℕ
  pub position : ℕ

-- var u Update
abbrev pub no_update : Update
no_update = record {
  real = false;
  index = zeros index_size;
  seed = zeros seed_size;
  commitment = zeros commitment_size;
  proof = 0;
  copath = [];
  old_seed = zeros seed_size;
  counter = 0;
  position = 0;
}

-- The reason of a MalformedError, with the number of the field where there is one.
pub data Malformed : Type 0 where
  bad_message : Malformed
  repeated wrong_type wrong_size missing : ℕ → Malformed
  bad_bool two_proofs no_proof long_copath wide_counter : Malformed
  fake_new_tree new_tree_copath copath_range fake_same_key unknown_kind : Malformed

-- `stuck` is no outcome of the code: the loop of pbwire.Fields ran out of rounds.
pub data Result (A : Type 0) : Type 0 where
  stuck : Result A
  malformed : Malformed → Result A
  ok : A → Result A

abbrev pub and_then : {A B : Type 0} → Result A → (A → Result B) → Result B
and_then stuck next = stuck
and_then (malformed why) next = malformed why
and_then (ok v) next = next v

-- validate
unfoldable pub validate : Update → Result (Unit {0})
validate u =
    if u.proof == new_tree
    then (if not u.real
        then malformed fake_new_tree
        else if length u.copath == 0
        then ok tt
        else malformed new_tree_copath)
    else if u.proof == different_key
    then (if ltb (length u.copath) 1 || ltb max_copath (length u.copath)
        then malformed copath_range
        else ok tt)
    else if u.proof == same_key
    then (if not u.real
        then malformed fake_same_key
        else if ltb max_copath (length u.copath)
        then malformed copath_range
        else ok tt)
    else malformed unknown_kind
