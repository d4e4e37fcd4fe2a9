-- ===== src/Signal/Node.antt =====
-- node, node.marshal and treeHash of internal/source/signal/logtree.go. The bytes of a value are a
-- list, which has 32 elements in the code.
use kt_witness.Common.{ℕ, Bool, true, List, ◌∷◌, ◌++◌, if◌then◌else◌}

abbrev pub Value : Type 0
Value = List ℕ

pub record Node : Type 0 where
  pub interior : Bool
  pub value : Value

abbrev pub marshal : Node → List ℕ
marshal n = (if n.interior then 1 else 0) ∷ n.value

-- sha256.Sum256 is a parameter here and in every module over it.
unfoldable pub tree_hash : (List ℕ → Value) → Node → Node → Node
tree_hash sha256 left right = record {
  interior = true;
  value = sha256 (marshal left ++ marshal right);
}
