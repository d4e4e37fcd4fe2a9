-- ===== src/Signal/Numbering.antt =====
-- The node numbering of internal/source/signal/logtree.go, that of RFC 9420. A set bit is taken away
-- where the code flips it by `^`, and a clear one added; a uint64 wraps at 2 ^ 64. A loop on fuel that
-- runs out is `stuck`, which is no value of the code.
use kt_witness.Common.{
  ℕ, zero, suc, ◌+◌, ◌-◌, ◌*◌, ◌/◌, ◌%◌, ◌^◌, Bool, true, false, List, [], ◌∷◌, ◌++◌, map, ltb, leb,
  ◌==◌, if◌then◌else◌,
}

pub data Reason : Type 0 where
  no_children bad_range wrong_length path_mismatch not_reconstructed empty_chain malformed_chain :
      Reason
  not_extended past_end : Reason

pub data Outcome (A : Type 0) : Type 0 where
  stuck : Outcome A
  rejects : Reason → Outcome A
  gives : A → Outcome A

infixl 5 ◌>=>◌
abbrev pub ◌>=>◌ : {A B : Type 0} → Outcome A → (A → Outcome B) → Outcome B
stuck >=> next = stuck
rejects why >=> next = rejects why
gives v >=> next = next v

-- bits.Len64(n) - 1
abbrev pub log2_loop : ℕ → ℕ → ℕ
log2_loop zero n = 0
log2_loop (suc rounds) n = let more = log2_loop rounds (n / 2) in if ltb n 2 then 0 else more + 1

abbrev pub log2 : ℕ → ℕ
log2 n = if n == 0 then 0 else log2_loop 64 n

-- The trailing one bits.
abbrev pub level_loop : ℕ → ℕ → ℕ
level_loop zero x = 0
level_loop (suc rounds) x =
    let more = level_loop rounds (x / 2) in if x % 2 == 1 then more + 1 else 0

abbrev pub level : ℕ → ℕ
level x = level_loop 64 x

abbrev pub left_step : ℕ → Outcome ℕ
left_step x = if level x == 0 then rejects no_children else gives (x - 2 ^ (level x - 1))

abbrev pub right_step : ℕ → Outcome ℕ
right_step x =
    if level x == 0 then rejects no_children else gives ((x + 2 ^ (level x - 1)) % 2 ^ 64)

abbrev pub node_width : ℕ → ℕ
node_width n = if n == 0 then 0 else (2 * (n - 1) + 1) % 2 ^ 64

abbrev pub tree_root : ℕ → ℕ
tree_root n = 2 ^ log2 (node_width n) - 1

-- The loop of rightChild.
descend : ℕ → ℕ → ℕ → Outcome ℕ
descend zero w r = stuck
descend (suc rounds) w r = if ltb r w then gives r else (left_step r >=> λ l. descend rounds w l)

unfoldable pub right_child : ℕ → ℕ → Outcome ℕ
unfolding descend
right_child x n = right_step x >=> λ r. descend 65 (node_width n) r

abbrev pub is_full_subtree : ℕ → ℕ → Bool
is_full_subtree x n = leb ((x + 2 ^ level x - 1) % 2 ^ 64) (2 * (n - 1) % 2 ^ 64)

subtrees_loop : ℕ → ℕ → ℕ → Outcome (List ℕ)
subtrees_loop zero x n = stuck
subtrees_loop (suc rounds) x n =
    if is_full_subtree x n
    then gives (x ∷ [])
    else (left_step x >=> λ l.
        right_child x n >=> λ r. subtrees_loop rounds r n >=> λ rest. gives (l ∷ rest))

unfoldable pub full_subtrees : ℕ → ℕ → Outcome (List ℕ)
unfolding subtrees_loop right_child
full_subtrees x n = subtrees_loop 65 x n

-- The largest power of two below n, for n above 1.
abbrev split_at : ℕ → ℕ
split_at n = if 2 ^ log2 n == n then n / 2 else 2 ^ log2 n

sub_proof : ℕ → ℕ → ℕ → Bool → Outcome (List ℕ)
sub_proof zero m n b = stuck
sub_proof (suc rounds) m n b =
    if m == n
    then gives (if b then [] else tree_root m ∷ [])
    else if leb m (split_at n)
    then (sub_proof rounds m (split_at n) b >=> λ out.
        right_child (tree_root n) n >=> λ r. gives (out ++ r ∷ []))
    else (left_step (tree_root n) >=> λ l.
        sub_proof rounds (m - split_at n) (n - split_at n) false >=> λ out.
        gives (l ∷ map (λ x. (x + 2 * split_at n) % 2 ^ 64) out))

unfoldable pub consistency_proof_nodes : ℕ → ℕ → Outcome (List ℕ)
unfolding sub_proof
consistency_proof_nodes m n = sub_proof 65 m n true
