-- ===== src/Signal/Examples.antt =====
-- Runs of the log tree of internal/source/signal on concrete leaves.
use kt_witness.Common.{some, true, false, ℕ, ◌≡◌, ◌≢◌, ◌⊎◌, refl, List, [], ◌∷◌, ◌++◌, ◌+◌, arith}
use kt_witness.Signal.Node.{Value, tree_hash}
use kt_witness.Signal.Numbering.{gives, consistency_proof_nodes, full_subtrees, right_child}
use kt_witness.Signal.Calculator.{insert, chain_root}
use kt_witness.Signal.Consistency.{verify_consistency, derive_root, verify_consistency_fixes_roots}
use kt_witness.Signal.Frontier.{LogFrontier, ok, empty, append_all, root}
use kt_witness.Signal.Frontier.Tree.{Tree, IsLeftBalanced, leaves, node_of}
use kt_witness.Signal.Frontier.Refinement.{root-append_all}
use kt_witness.Signal.Guide.{
  VersionedId, ProofGuide, poll, result, sort_ids, put_by_id, is_monotonic, smallest,
  new_proof_guide, move_loop, frontier, frontier_loop,
}
use kt_witness.Signal.Guide.Earliest.{IsInOrder, IsEarliest, result-IsEarliest}
use kt_witness.Signal.Prefix.{verify_commitment, commitment_key, commitment_bytes}
use kt_witness.Signal.Commitment.{verify_commitment_binds}

-- A hash that shows what it was given.
abbrev shown : List ℕ → Value
shown bytes = 256 ∷ bytes

abbrev three : List Value
three = (1 ∷ []) ∷ (2 ∷ []) ∷ (3 ∷ []) ∷ []

root-append_all_example :
    (f : LogFrontier) × (append_all shown empty three ≡ ok f)
    × ((t : Tree) × IsLeftBalanced t
        × (leaves t ≡ three)
        × (root shown f ≡ ok (node_of shown t).value))
root-append_all_example = root-append_all shown (1 ∷ []) ((2 ∷ []) ∷ (3 ∷ []) ∷ []) (omega arith)

abbrev frontier_of_two : LogFrontier
frontier_of_two = record { size = 2; subtrees = (256 ∷ 0 ∷ 1 ∷ 0 ∷ 2 ∷ []) ∷ [] }

-- From three leaves to four: the proof is the first two leaves' subtree, the third leaf and the
-- fourth.
abbrev proof_of_four : List Value
proof_of_four = (9 ∷ []) ∷ (3 ∷ []) ∷ (4 ∷ []) ∷ []

abbrev root_of_three : Value
root_of_three = 256 ∷ 1 ∷ 9 ∷ 0 ∷ 3 ∷ []

abbrev root_of_four : Value
root_of_four = 256 ∷ 1 ∷ 9 ∷ 1 ∷ 256 ∷ 0 ∷ 3 ∷ 0 ∷ 4 ∷ []

four_extends_three :
    verify_consistency shown 3 4 proof_of_four root_of_three root_of_four ≡ gives tt
unfolding verify_consistency derive_root consistency_proof_nodes full_subtrees right_child insert
    chain_root tree_hash
four_extends_three = refl

verify_consistency_fixes_roots_example :
    (root_of_three ≡ root_of_three) × (root_of_four ≡ root_of_four)
unfolding full_subtrees right_child
verify_consistency_fixes_roots_example =
    verify_consistency_fixes_roots shown 3 4 proof_of_four root_of_three root_of_three root_of_four
      root_of_four (1 ∷ 4 ∷ []) refl refl four_extends_three four_extends_three

abbrev first_key : List ℕ
first_key = 1 ∷ 2 ∷ []

abbrev second_key : List ℕ
second_key = 2 ∷ 1 ∷ []

abbrev some_value : List ℕ
some_value = 3 ∷ []

abbrev no_nonce : List ℕ
no_nonce = 0 ∷ 0 ∷ 0 ∷ 0 ∷ 0 ∷ 0 ∷ 0 ∷ 0 ∷ 0 ∷ 0 ∷ 0 ∷ 0 ∷ 0 ∷ 0 ∷ 0 ∷ 0 ∷ []

abbrev sum : List ℕ → ℕ
sum [] = 0
sum (x ∷ l) = x + sum l

-- A keyed hash of the right size, under which two openings clash.
abbrev keyed_sum : List ℕ → List ℕ → Value
keyed_sum key bytes =
    sum bytes ∷ 0 ∷ no_nonce ++ 0 ∷ 0 ∷ 0 ∷ 0 ∷ 0 ∷ 0 ∷ 0 ∷ 0 ∷ 0 ∷ 0 ∷ 0 ∷ 0 ∷ 0 ∷ 0 ∷ []

verify_commitment_binds_example :
    ◌⊎◌ ((no_nonce ≡ no_nonce) × (first_key ≡ second_key) × (some_value ≡ some_value)) (
      (commitment_bytes no_nonce first_key some_value
        ≢ commitment_bytes no_nonce second_key some_value)
      × (keyed_sum commitment_key (commitment_bytes no_nonce first_key some_value)
          ≡ keyed_sum commitment_key (commitment_bytes no_nonce second_key some_value)))
unfolding verify_commitment
verify_commitment_binds_example =
    verify_commitment_binds keyed_sum
      (keyed_sum commitment_key (commitment_bytes no_nonce first_key some_value)) first_key
      some_value no_nonce second_key some_value no_nonce refl refl

-- The first version of a key in a log of four entries, from its second entry on.
abbrev entry : ℕ → ℕ → VersionedId
entry id version = record { id = id; version = version }

abbrev searched : ProofGuide
searched = record {
  pos = 0;
  n = 4;
  version = 1;
  ids = 3 ∷ 1 ∷ 0 ∷ [];
  sorted = entry 3 1 ∷ entry 1 1 ∷ entry 0 0 ∷ [];
  is_frontier = false;
}

abbrev answered : ProofGuide
answered = record searched { sorted = entry 0 0 ∷ entry 1 1 ∷ entry 3 1 ∷ [] }

search_done : poll searched ≡ gives (true, answered)
unfolding poll sort_ids put_by_id is_monotonic
search_done = refl

search_found : result answered ≡ some (1, 1)
unfolding result smallest
search_found = refl

guide_test : new_proof_guide (some 1) 0 4 ≡ gives (record searched { ids = 3 ∷ []; sorted = [] })
unfolding new_proof_guide move_loop
guide_test = refl

frontier_test : frontier 0 6 ≡ gives (3 ∷ 5 ∷ [])
unfolding frontier_loop move_loop
frontier_test = refl

result-IsEarliest_example :
    IsInOrder answered.sorted × IsEarliest answered.version answered.sorted (some 1)
result-IsEarliest_example = result-IsEarliest searched answered (1, 1) search_done search_found
