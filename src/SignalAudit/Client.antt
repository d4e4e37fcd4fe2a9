-- ===== src/SignalAudit/Client.antt =====
-- A client's inclusion proof, evaluatePrefixProof of internal/source/signal/prefixtree.go, and fold of
-- internal/signalaudit/state.go.
use mathlib.Core.List.{reverse, reverse-cons}
use kt_witness.Common.{
  ℕ, ◌≡◌, refl, ap, sym, ◌∙◌, List, [], ◌∷◌, length, length-append, arith, ◌==◌, ==_iff,
  if◌then◌else◌, some, true,
}
use kt_witness.Signal.Node.{Value}
use kt_witness.Signal.Prefix.{
  bit, evaluate_loop, evaluate_prefix_proof, prefix_leaf_hash, prefix_parent_hash,
}
use kt_witness.SignalAudit.State.{fold}
use kt_witness.SignalAudit.Walk.{foot, foot-length}
use kt_witness.SignalAudit.Paths.{fold-append}

length-reverse : (l : List Value) → length (reverse l) ≡ length l
length-reverse [] = refl
length-reverse (x ∷ l) =
    omega
      (arith, ap length (reverse-cons x l), length-append (reverse l) (x ∷ []), length-reverse l)

module _ (sha256 : List ℕ → Value) where
  evaluate_loop-fold :
      (index : List ℕ) (value : Value) (proof : List Value)
      → evaluate_loop sha256 index value proof ≡ fold sha256 0 index value (reverse proof)
  unfolding evaluate_loop fold
  evaluate_loop-fold index value [] = refl
  evaluate_loop-fold index value (c ∷ proof) =
      let depth : foot 0 (reverse proof) ≡ length proof =
        omega (arith, foot-length 0 (reverse proof), length-reverse proof) in
      let parent : ℕ → Value = λ d.
        if bit index d == 0
        then prefix_parent_hash sha256 value c
        else prefix_parent_hash sha256 c value in
      evaluate_loop-fold index (parent (length proof)) proof
      ∙ ap (λ d. fold sha256 0 index (parent d) (reverse proof)) (sym depth)
      ∙ sym (fold-append sha256 0 index value (reverse proof) (c ∷ []))
      ∙ ap (fold sha256 0 index value) (sym (reverse-cons c proof))

  -- A client's proof of 256 hashes gives the root that an auditor's fold gives of the same hashes in
  -- the opposite order: it starts with the sibling of the leaf.
  pub evaluate_prefix_proof-fold :
      (index : List ℕ) (ctr pos : ℕ) (proof : List Value)
      → length proof ≡ 256
      → evaluate_prefix_proof sha256 index ctr pos proof
        ≡ some (fold sha256 0 index (prefix_leaf_hash sha256 index ctr pos) (reverse proof))
  unfolding evaluate_prefix_proof
  evaluate_prefix_proof-fold index ctr pos proof h =
      let long : (length proof == 256) ≡ true = (==_iff (length proof) 256).1 h in
      rw long (ap some (evaluate_loop-fold index (prefix_leaf_hash sha256 index ctr pos) proof))
