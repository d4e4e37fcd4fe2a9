-- ===== src/Akd/Trie.antt =====
-- The compressed trie over labels that internal/akdtree hashes, as the reference for its recursion.
use kt_witness.Common.{ℕ, ◌-◌, ◌*◌, ◌^◌, ◌<◌, ◌≡◌, List, [], ◌∷◌, ◌++◌, All, Option, none, some}
use kt_witness.Signal.Node.{Value}
use kt_witness.Akd.Label.{Element, bit_at}
use kt_witness.Akd.Bits.{top}
use kt_witness.Akd.Tree.{
  label_value, parent_hash, empty_node_hash, empty_label_value, empty_root_value, root_label_value,
  hash2,
}

-- A branch has the first n bits of the labels below it, which part at bit n.
pub data Trie : Type 0 where
  leaf : Element → Trie
  branch : ℕ → ℕ → Trie → Trie → Trie

unfoldable pub leaves : Trie → List Element
leaves (leaf e) = e ∷ []
leaves (branch label n l r) = leaves l ++ leaves r

-- The first n bits of a label, the others cleared.
abbrev pub kept_bits : ℕ → ℕ → ℕ
kept_bits n label = top n label * 2 ^ (256 - n)

unfoldable pub IsTrie : Trie → Type 0
IsTrie (leaf e) = Unit
IsTrie (branch label n l r) =
    (n < 256)
    × All (λ e. kept_bits n e.label ≡ label) (leaves l ++ leaves r)
    × All (λ e. bit_at e.label n ≡ 0) (leaves l)
    × All (λ e. bit_at e.label n ≡ 1) (leaves r)
    × IsTrie l
    × IsTrie r

-- The tree under the root, each side of which may be absent.
pub data Tree : Type 0 where
  nothing : Tree
  sides : Option Trie → Option Trie → Tree

unfoldable pub side_leaves : Option Trie → List Element
unfolding leaves
side_leaves none = []
side_leaves (some t) = leaves t

unfoldable pub tree_leaves : Tree → List Element
unfolding side_leaves
tree_leaves nothing = []
tree_leaves (sides l r) = side_leaves l ++ side_leaves r

abbrev pub SideTrie : (Trie → Type 0) → Option Trie → Type 0
SideTrie P none = Unit
SideTrie P (some t) = P t

-- The sides part at bit 0.
unfoldable pub IsTree : Tree → Type 0
IsTree nothing = Unit
IsTree (sides l r) =
    All (λ e. bit_at e.label 0 ≡ 0) (side_leaves l)
    × All (λ e. bit_at e.label 0 ≡ 1) (side_leaves r)
    × SideTrie IsTrie l
    × SideTrie IsTrie r

module _ (blake3 : List ℕ → Value) where
  unfoldable pub label_hash : Trie → Value
  label_hash (leaf e) = label_value blake3 e.label e.len
  label_hash (branch label n l r) = label_value blake3 label n

  unfoldable pub trie_hash : Trie → Value
  trie_hash (leaf e) = e.value
  trie_hash (branch label n l r) =
      parent_hash blake3 (trie_hash l) (label_hash l) (trie_hash r) (label_hash r)

  unfoldable pub side_hash : Option Trie → Value × Value
  unfolding trie_hash label_hash
  side_hash none = (empty_node_hash blake3, empty_label_value blake3)
  side_hash (some t) = (trie_hash t, label_hash t)

  unfoldable pub whole_hash : Tree → Value
  unfolding side_hash
  whole_hash nothing = hash2 blake3 (empty_root_value blake3) (root_label_value blake3)
  whole_hash (sides l r) =
      hash2 blake3
        (parent_hash blake3 (side_hash l).0 (side_hash l).1 (side_hash r).0 (side_hash r).1)
        (root_label_value blake3)
