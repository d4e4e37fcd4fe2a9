-- ===== src/Signal/Frontier/Tree.antt =====
-- The log tree that the frontier stands for, which no code builds: full subtrees, and the
-- left-balanced tree of RFC 9420 over any number of leaves.
use kt_witness.Common.{
  ℕ, zero, suc, ◌^◌, ◌<◌, ◌≡◌, refl, List, [], ◌∷◌, ◌++◌, false, ltb, arith, length, length-append,
}
use kt_witness.Signal.Node.{Value, Node, tree_hash}

pub data Tree : Type 0 where
  leaf : Value → Tree
  branch : Tree → Tree → Tree

abbrev pub leaves : Tree → List Value
leaves (leaf v) = v ∷ []
leaves (branch l r) = leaves l ++ leaves r

abbrev pub node_of : (List ℕ → Value) → Tree → Node
node_of sha256 (leaf v) = record { interior = false; value = v }
node_of sha256 (branch l r) = tree_hash sha256 (node_of sha256 l) (node_of sha256 r)

-- A full subtree of 2 ^ height leaves.
pub data IsFull : ℕ → Tree → Type 0 where
  full_leaf : (v : Value) → IsFull 0 (leaf v)
  full_branch : (k : ℕ) (l r : Tree) → IsFull k l → IsFull k r → IsFull (suc k) (branch l r)

-- On the left a full subtree with more leaves than the rest has, on the right the rest.
pub data IsLeftBalanced : Tree → Type 0 where
  full : (k : ℕ) (t : Tree) → IsFull k t → IsLeftBalanced t
  grown :
      (k : ℕ) (l r : Tree)
      → IsFull k l
      → IsLeftBalanced r
      → length (leaves r) < 2 ^ k
      → IsLeftBalanced (branch l r)

pub length-IsFull : (k : ℕ) (t : Tree) → IsFull k t → length (leaves t) ≡ 2 ^ k
length-IsFull k t (full_leaf v) = refl
length-IsFull k t (full_branch j l r p q) =
    omega (arith, length-append (leaves l) (leaves r), length-IsFull j l p, length-IsFull j r q)

pub interior-IsFull :
    (sha256 : List ℕ → Value) (k : ℕ) (t : Tree)
    → IsFull k t
    → (node_of sha256 t).interior ≡ ltb 0 k
unfolding tree_hash
interior-IsFull sha256 k t (full_leaf v) = refl
interior-IsFull sha256 k t (full_branch j l r p q) = ground arith

pub two_pow_pos : (k : ℕ) → 0 < 2 ^ k
two_pow_pos zero = omega arith
two_pow_pos (suc k) = omega (arith, two_pow_pos k)
