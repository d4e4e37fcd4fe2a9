-- ===== src/Akd/Tree.antt =====
-- The trie hashes of internal/akdtree/verify.go: Root, subtree, Roots and VerifyAppendOnly. blake3 is a
-- parameter. A slice is a list; slices.SortFunc is a stable insertion, and sort.Search the first index
-- where the test holds, as its documentation has it of a test that stays true.
use kt_witness.Common.{
  ℕ, zero, suc, ◌-◌, ◌/◌, ◌^◌, Bool, ◌&&◌, ◌||◌, List, [], ◌∷◌, ◌++◌, map, length, ◌==◌,
  if◌then◌else◌,
}
use kt_witness.PbWire.{big_endian}
use kt_witness.Signal.Node.{Value}
use kt_witness.Signal.Consistency.{same_value}
use kt_witness.Akd.Label.{Element, bit_at, common_prefix_len, prefix_of, element_less}

-- `stuck` is no outcome of the code: subtree recurs as deep as there are elements at most.
pub data Attempt (A : Type 0) : Type 0 where
  stuck dropped unsorted : Attempt A
  ok : A → Attempt A

abbrev pub then_build : {A B : Type 0} → Attempt A → (A → Attempt B) → Attempt B
then_build stuck next = stuck
then_build dropped next = dropped
then_build unsorted next = unsorted
then_build (ok a) next = next a

-- The elements before the first with this bit set, and the others.
unfoldable pub before_bit : ℕ → List Element → List Element
before_bit i [] = []
before_bit i (e ∷ rest) =
    let more = before_bit i rest in if bit_at e.label i == 1 then [] else e ∷ more

unfoldable pub from_bit : ℕ → List Element → List Element
from_bit i [] = []
from_bit i (e ∷ rest) =
    let more = from_bit i rest in if bit_at e.label i == 1 then e ∷ rest else more

abbrev pub last_of : Element → List Element → Element
last_of e [] = e
last_of e (f ∷ rest) = last_of f rest

unfoldable pub insert_element : Element → List Element → List Element
insert_element e [] = e ∷ []
insert_element e (f ∷ rest) =
    let more = insert_element e rest in if element_less f e then f ∷ more else e ∷ f ∷ rest

-- Sort
unfoldable pub sort_elements : List Element → List Element
unfolding insert_element
sort_elements [] = []
sort_elements (e ∷ rest) = insert_element e (sort_elements rest)

-- merge, with the elements of the first list that are left while the second is walked through.
unfoldable pub merge_one : Element → (List Element → List Element) → List Element → List Element
merge_one e rest [] = e ∷ rest []
merge_one e rest (f ∷ others) =
    let second = merge_one e rest others in
    if element_less e f then e ∷ rest (f ∷ others) else f ∷ second

unfoldable pub merge : List Element → List Element → List Element
unfolding merge_one
merge [] others = others
merge (e ∷ rest) others = merge_one e (merge rest) others

abbrev pub empty_label : ℕ
empty_label = (256 ^ 32 - 1) / 255

module _ (blake3 : List ℕ → Value) where
  abbrev pub hash2 : Value → Value → Value
  hash2 a b = blake3 (a ++ b)

  abbrev pub label_value : ℕ → ℕ → Value
  label_value label l = blake3 (big_endian 4 l ++ big_endian 32 label)

  abbrev pub parent_hash : Value → Value → Value → Value → Value
  parent_hash lv ll rv rl = hash2 (hash2 lv ll) (hash2 rv rl)

  abbrev pub hash_leaf_with_commitment : Value → ℕ → Value
  hash_leaf_with_commitment v epoch = blake3 (v ++ big_endian 8 epoch)

  abbrev pub empty_root_value : Value
  empty_root_value = blake3 (0 ∷ [])

  abbrev pub empty_label_value : Value
  empty_label_value = label_value empty_label 0

  abbrev pub empty_node_hash : Value
  empty_node_hash = hash2 (blake3 (0 ∷ [])) empty_label_value

  abbrev pub root_label_value : Value
  root_label_value = label_value 0 0

  -- The value and the hashed label of a node.
  unfoldable pub subtree : ℕ → List Element → Attempt (Value × Value)
  subtree rounds [] = ok (empty_node_hash, empty_label_value)
  subtree rounds (e ∷ []) = ok (e.value, label_value e.label e.len)
  subtree zero (e ∷ f ∷ rest) = stuck
  subtree (suc rounds) (e ∷ f ∷ rest) =
      let lcp = common_prefix_len e (last_of f rest) in
      let left = before_bit lcp (e ∷ f ∷ rest) in
      let right = from_bit lcp (e ∷ f ∷ rest) in
      let hashed = then_build (subtree rounds left) (λ l.
        then_build (subtree rounds right)
          (λ r. ok (parent_hash l.0 l.1 r.0 r.1, label_value (prefix_of e.label lcp) lcp))) in
      if e.len == lcp
      then dropped
      else if (length left == 0) || (length right == 0)
      then unsorted
      else hashed

  unfoldable pub root_hash : List Element → Attempt Value
  unfolding subtree
  root_hash [] = ok (hash2 empty_root_value root_label_value)
  root_hash (e ∷ rest) =
      let elems = e ∷ rest in
      then_build (subtree (length elems) (before_bit 0 elems)) (λ l.
        then_build (subtree (length elems) (from_bit 0 elems))
          (λ r. ok (hash2 (parent_hash l.0 l.1 r.0 r.1) root_label_value)))

  abbrev pub committed : ℕ → Element → Element
  committed epoch e = record e { value = hash_leaf_with_commitment e.value epoch }

  -- The elements that the current root is of.
  abbrev pub merged : List Element → List Element → ℕ → List Element
  merged unchanged inserted epoch =
      merge (sort_elements unchanged) (sort_elements (map (committed epoch) inserted))

  unfoldable pub roots : List Element → List Element → ℕ → Attempt (Value × Value)
  unfolding root_hash
  roots unchanged inserted epoch =
      then_build (root_hash (sort_elements unchanged))
        (λ prev. then_build (root_hash (merged unchanged inserted epoch)) (λ curr. ok (prev, curr)))

  unfoldable pub verify_append_only : List Element → List Element → Value → Value → ℕ → Attempt Bool
  unfolding roots
  verify_append_only unchanged inserted prev_root curr_root epoch =
      then_build (roots unchanged inserted epoch)
        (λ r. ok (same_value r.0 prev_root && same_value r.1 curr_root))
