-- ===== src/Signal/Calculator.antt =====
-- rootCalculator of internal/source/signal/logtree.go: the chain by level, a missing node `none`.
use kt_witness.Common.{ℕ, zero, suc, true, false, Option, none, some, List, [], ◌∷◌}
use kt_witness.Signal.Node.{Value, Node, tree_hash}
use kt_witness.Signal.Numbering.{Outcome, rejects, gives, empty_chain, malformed_chain}

abbrev pub Chain : Type 0
Chain = List (Option Node)

module _ (sha256 : List ℕ → Value) where
  -- The loop of insert, from the level on.
  merge_up : Node → Chain → Chain
  merge_up acc [] = some acc ∷ []
  merge_up acc (none ∷ rest) = some acc ∷ rest
  merge_up acc (some n ∷ rest) = none ∷ merge_up (tree_hash sha256 n acc) rest

  insert_from : ℕ → Node → Chain → Chain
  unfolding merge_up
  insert_from zero acc chain = merge_up acc chain
  insert_from (suc lvl) acc [] = none ∷ insert_from lvl acc []
  insert_from (suc lvl) acc (x ∷ rest) = x ∷ insert_from lvl acc rest

  unfoldable pub insert : ℕ → Value → Chain → Chain
  unfolding insert_from
  insert lvl value chain =
      insert_from lvl
        (record { interior = (elim lvl [ zero ↦ false | suc _ ↦ true ]); value = value }) chain

  root_from : Node → Chain → Node
  root_from acc [] = acc
  root_from acc (none ∷ rest) = root_from acc rest
  root_from acc (some n ∷ rest) = root_from (tree_hash sha256 n acc) rest

  first_root : Chain → Outcome Value
  unfolding root_from
  first_root [] = rejects malformed_chain
  first_root (none ∷ rest) = first_root rest
  first_root (some n ∷ rest) = gives (root_from n rest).value

  unfoldable pub chain_root : Chain → Outcome Value
  unfolding first_root
  chain_root [] = rejects empty_chain
  chain_root (x ∷ rest) = first_root (x ∷ rest)
