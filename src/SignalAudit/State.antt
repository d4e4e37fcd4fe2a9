-- ===== src/SignalAudit/State.antt =====
-- internal/signalaudit/state.go: State and Apply. An error of Apply leaves the state as it was, so
-- the outcome of an update has the new state only where it is applied; `panics` is a read past the
-- end of the frontier.
use kt_witness.Common.{
  ℕ, zero, suc, ◌+◌, ◌-◌, ◌^◌, List, [], ◌∷◌, ◌++◌, length, take, ◌==◌, if◌then◌else◌, not,
}
use kt_witness.Signal.Node.{Value}
use kt_witness.Signal.Frontier.{LogFrontier, append}
use kt_witness.Signal.Frontier
use kt_witness.Signal.Consistency.{same_value}
use kt_witness.Signal.Prefix.{
  bit, prefix_leaf_hash, prefix_parent_hash, prefix_stand_in_hash, log_leaf_hash,
}
use kt_witness.SignalAudit.Update.{
  Update, Malformed, stuck as out_of_rounds, malformed, ok, max_copath, zeros, validate, new_tree,
  different_key,
}

pub record State : Type 0 where
  pub prefix_root : Value
  pub log : LogFrontier

-- The zero value.
abbrev pub no_state : State
no_state = record { prefix_root = zeros 32; log = Frontier.empty }

-- The reason of a ProofError.
pub data Contradiction : Type 0 where
  not_empty first_not_new not_absent not_included counter_overflow log_overflow : Contradiction

-- What comes of a step of Apply; `rejected` carries the MalformedError.
pub data Applied (A : Type 0) : Type 0 where
  stuck panics : Applied A
  rejected : Malformed → Applied A
  contradicts : Contradiction → Applied A
  applied : A → Applied A

abbrev pub and_then : {A B : Type 0} → Applied A → (A → Applied B) → Applied B
and_then stuck next = stuck
and_then panics next = panics
and_then (rejected why) next = rejected why
and_then (contradicts why) next = contradicts why
and_then (applied a) next = next a

abbrev pub checked : Update → Applied (Unit {0})
checked u = elim (validate u) [
  | out_of_rounds ↦ stuck
  | malformed why ↦ rejected why
  | ok _ ↦ applied tt
]

module _ (sha256 : List ℕ → Value) where
  -- fold, from the node at this depth; its siblings come from the root down.
  unfoldable pub fold : ℕ → List ℕ → Value → List Value → Value
  fold d index value [] = value
  fold d index value (c ∷ copath) =
      let below = fold (suc d) index value copath in
      if bit index d == 0
      then prefix_parent_hash sha256 below c
      else prefix_parent_hash sha256 c below

  -- uint8(len(copath)-1) is the length and 255, cut to a uint8.
  unfoldable pub fake_root : List ℕ → List Value → List ℕ → Value
  fake_root index copath seed =
      fold 0 index (prefix_stand_in_hash sha256 seed (length copath + 255)) copath

  -- The loop of padCopath, from this level on.
  unfoldable pub pad : ℕ → ℕ → List ℕ → List Value
  pad zero level seed = []
  pad (suc n) level seed = prefix_stand_in_hash sha256 seed level ∷ pad n (suc level) seed

  unfoldable pub pad_copath : List Value → List ℕ → List Value
  pad_copath copath seed =
      take max_copath copath ++ pad (max_copath - length copath) (length copath) seed

  unfoldable pub real_root : List ℕ → ℕ → ℕ → List Value → List ℕ → Value
  real_root index ctr pos copath seed =
      fold 0 index (prefix_leaf_hash sha256 index ctr pos) (pad_copath copath seed)

  -- The switch of Apply: the next prefix root.
  unfoldable pub new_tree_root : ℕ → Update → Applied Value
  new_tree_root pos u =
      if not (pos == 0) then contradicts not_empty else applied (real_root u.index 0 0 [] u.seed)

  unfoldable pub different_key_root : State → Update → Applied Value
  different_key_root s u =
      if s.log.size == 0
      then contradicts first_not_new
      else if not (same_value (fake_root u.index u.copath u.old_seed) s.prefix_root)
      then contradicts not_absent
      else if u.real
      then applied (real_root u.index 0 s.log.size u.copath u.seed)
      else applied (fake_root u.index u.copath u.seed)

  unfoldable pub same_key_root : State → Update → Applied Value
  same_key_root s u =
      let path = pad_copath u.copath u.seed in
      if s.log.size == 0
      then contradicts first_not_new
      else if not (
          same_value (fold 0 u.index (prefix_leaf_hash sha256 u.index u.counter u.position) path)
            s.prefix_root)
      then contradicts not_included
      else if u.counter == 2 ^ 32 - 1
      then contradicts counter_overflow
      else applied
          (fold 0 u.index (prefix_leaf_hash sha256 u.index (u.counter + 1) u.position) path)

  unfoldable pub next_root : State → Update → Applied Value
  next_root s u =
      if u.proof == new_tree
      then new_tree_root s.log.size u
      else if u.proof == different_key
      then different_key_root s u
      else same_key_root s u

  unfoldable pub advance : State → Update → Value → Applied State
  advance s u next = elim (append sha256 s.log (log_leaf_hash sha256 next u.commitment)) [
    | Frontier.panics ↦ panics
    | Frontier.size_mismatch ↦ contradicts log_overflow
    | Frontier.would_overflow ↦ contradicts log_overflow
    | Frontier.no_root ↦ contradicts log_overflow
    | Frontier.ok log ↦ applied (record { prefix_root = next; log = log })
  ]

  unfoldable pub apply : State → Update → Applied State
  apply s u = and_then (checked u) (λ _. and_then (next_root s u) (advance s u))
