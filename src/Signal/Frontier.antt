-- ===== src/Signal/Frontier.antt =====
-- internal/source/signal/frontier.go. The slice `subtrees` is the list of its elements from the last
-- to the first, since Append and Root take them from the end. A read past the end of the slice is the
-- outcome `panics`.
pub mod Tree
pub mod Stack
pub mod Refinement
use kt_witness.Common.{
  ℕ, zero, suc, ◌+◌, ◌/◌, ◌%◌, ◌^◌, ◌-◌, Bool, true, false, List, [], ◌∷◌, length, ltb, ◌==◌,
  if◌then◌else◌,
}
use kt_witness.Signal.Node.{Value, Node, tree_hash}

pub record LogFrontier : Type 0 where
  pub size : ℕ
  pub subtrees : List Value

pub data Result (A : Type 0) : Type 0 where
  panics size_mismatch would_overflow no_root : Result A
  ok : A → Result A

abbrev pub and_then : {A B : Type 0} → Result A → (A → Result B) → Result B
and_then panics next = panics
and_then size_mismatch next = size_mismatch
and_then would_overflow next = would_overflow
and_then no_root next = no_root
and_then (ok v) next = next v

-- bits.OnesCount64, over `width` bits.
unfoldable pub ones_count : ℕ → ℕ → ℕ
ones_count zero n = 0
ones_count (suc width) n = n % 2 + ones_count width (n / 2)

unfoldable pub new_log_frontier : ℕ → List Value → Result LogFrontier
new_log_frontier size subtrees =
    if length subtrees == ones_count 64 size
    then ok (record { size = size; subtrees = subtrees })
    else size_mismatch

abbrev pub empty : LogFrontier
empty = record { size = 0; subtrees = [] }

module _ (sha256 : List ℕ → Value) where
  -- The loop of Append at level `lvl`, with `s` the old size shifted by it.
  unfoldable pub carry_up : ℕ → ℕ → List Value → Node → Result (List Value)
  carry_up s lvl [] carry = if s % 2 == 1 then panics else ok (carry.value ∷ [])
  carry_up s lvl (last ∷ rest) carry =
      let merged =
        carry_up (s / 2) (suc lvl) rest
          (tree_hash sha256 (record { interior = ltb 0 lvl; value = last }) carry) in
      if s % 2 == 1 then merged else ok (carry.value ∷ last ∷ rest)

  unfoldable pub append : LogFrontier → Value → Result LogFrontier
  append f leaf =
      if f.size == 2 ^ 64 - 1
      then would_overflow
      else and_then (carry_up f.size 0 f.subtrees (record { interior = false; value = leaf }))
          (λ l. ok (record { size = f.size + 1; subtrees = l }))

  -- The loop of Root, over what is left of the smallest subtree.
  unfoldable pub fold_up : Node → List Value → Node
  fold_up acc [] = acc
  fold_up acc (x ∷ rest) =
      fold_up (tree_hash sha256 (record { interior = true; value = x }) acc) rest

  unfoldable pub root_of : ℕ → List Value → Result Value
  root_of size [] = panics
  root_of size (x ∷ rest) = ok (fold_up (record { interior = size % 2 == 0; value = x }) rest).value

  unfoldable pub root : LogFrontier → Result Value
  unfolding root_of
  root f = if f.size == 0 then no_root else root_of f.size f.subtrees

  -- An auditor's replay: the leaves of a log from its first.
  unfoldable pub append_all : LogFrontier → List Value → Result LogFrontier
  unfolding append
  append_all f [] = ok f
  append_all f (leaf ∷ rest) = and_then (append f leaf) (λ g. append_all g rest)
