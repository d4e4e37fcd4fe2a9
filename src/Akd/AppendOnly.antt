-- ===== src/Akd/AppendOnly.antt =====
-- Roots and VerifyAppendOnly of internal/akdtree/verify.go: what an accepted proof shows.
use mathlib.Core.List.{Perm, Mem, mem-append_left}
use mathlib.Core.List.Perm
use kt_witness.Common.{
  ℕ, ◌≡◌, ap, sym, subst, arith, Bool, true, ◌&&◌, map, List, [], ◌∷◌, ◌++◌, All,
}
use kt_witness.Signal.Node.{Value}
use kt_witness.Signal.Consistency.{same_value, same_value-eq}
use kt_witness.Akd.Label.{Element}
use kt_witness.Akd.Tree.{
  Attempt, ok, then_build, sort_elements, merged, committed, root_hash, roots, verify_append_only,
}
use kt_witness.Akd.Trie.{Tree, tree_leaves, IsTree, whole_hash}
use kt_witness.Akd.Sorted.{Ascending}
use kt_witness.Akd.Prefixes.{Fits}
use kt_witness.Akd.Order.{
  sort_elements-All, sort_elements-Ascending, sort_elements-perm, merge-All, merge-Ascending,
  merge-perm,
}
use kt_witness.Akd.Rebuilt.{Rebuilt, root_dropped, root_unsorted, root_built, root_hash-Rebuilt}

module _ (blake3 : List ℕ → Value) where
  -- The proof stands for a tree and one that keeps all its elements and has the inserted ones, each
  -- with its value committed to the epoch.
  pub record Extends (unchanged inserted : List Element) (prev curr : Value) (epoch : ℕ)
      : Type 0 where
    pub before : Tree
    pub after : Tree
    pub before_tree : IsTree before
    pub after_tree : IsTree after
    pub before_leaves : Perm (tree_leaves before) unchanged
    pub after_leaves : Perm (tree_leaves after) (unchanged ++ map (committed blake3 epoch) inserted)
    pub before_hash : whole_hash blake3 before ≡ prev
    pub after_hash : whole_hash blake3 after ≡ curr
    pub keeps : (e : Element) → Mem e (tree_leaves before) → Mem e (tree_leaves after)

  pub committed-Fits :
      (epoch : ℕ) (l : List Element) → All Fits l → All Fits (map (committed blake3 epoch) l)
  committed-Fits epoch [] all = tt
  committed-Fits epoch (e ∷ l) (h, all) = (h, committed-Fits epoch l all)

  pub merged-Ascending :
      (unchanged inserted : List Element) (epoch : ℕ)
      → Ascending (merged blake3 unchanged inserted epoch)
  merged-Ascending unchanged inserted epoch =
      merge-Ascending _ _ (sort_elements-Ascending unchanged)
        (sort_elements-Ascending (map (committed blake3 epoch) inserted))

  pub merged-Fits :
      (unchanged inserted : List Element) (epoch : ℕ)
      → All Fits unchanged
      → All Fits inserted
      → All Fits (merged blake3 unchanged inserted epoch)
  merged-Fits unchanged inserted epoch a b =
      merge-All Fits _ _ (sort_elements-All Fits unchanged a)
        (sort_elements-All Fits _ (committed-Fits epoch inserted b))

  merged-perm :
      (unchanged inserted : List Element) (epoch : ℕ)
      → Perm
          (merged blake3 unchanged inserted epoch)
          (unchanged ++ map (committed blake3 epoch) inserted)
  merged-perm unchanged inserted epoch =
      Perm.trans (merge-perm _ _)
        (Perm.append (sort_elements-perm unchanged) (sort_elements-perm _))

  -- VerifyAppendOnly accepts only a proof that stands for two tries over the labels, the first over the
  -- unchanged elements with the previous root as its hash, the second over these and the inserted ones,
  -- with values committed to the epoch, with the current root as its hash. So all elements of the first
  -- are in the second.
  pub verify_append_only-Extends :
      (unchanged inserted : List Element) (prev curr : Value) (epoch : ℕ)
      → All Fits unchanged
      → All Fits inserted
      → verify_append_only blake3 unchanged inserted prev curr epoch ≡ ok true
      → Extends unchanged inserted prev curr epoch
  unfolding verify_append_only roots
  verify_append_only-Extends unchanged inserted prev curr epoch a b h =
      accepted (root_hash blake3 (sort_elements unchanged))
        (root_hash blake3 (merged blake3 unchanged inserted epoch))
        (root_hash-Rebuilt blake3 (sort_elements unchanged) (sort_elements-Ascending unchanged)
          (sort_elements-All Fits unchanged a))
        (root_hash-Rebuilt blake3 (merged blake3 unchanged inserted epoch)
          (merged-Ascending unchanged inserted epoch) (merged-Fits unchanged inserted epoch a b))
        h
    where
      verdict : Attempt Value → Attempt Value → Attempt Bool
      verdict first second =
          then_build {A = Value × Value}
            (then_build {B = Value × Value} first
              (λ p. then_build {B = Value × Value} second (λ c. ok (p, c))))
            (λ r. ok (same_value r.0 prev && same_value r.1 curr))

      accepted :
          (first second : Attempt Value)
          → Rebuilt blake3 (sort_elements unchanged) first
          → Rebuilt blake3 (merged blake3 unchanged inserted epoch) second
          → verdict first second ≡ ok true
          → Extends unchanged inserted prev curr epoch
      accepted first second (root_dropped e f) r h = absurd (cc (ap (λ o. verdict o second) e, h))
      accepted first second (root_unsorted e f) r h = absurd (cc (ap (λ o. verdict o second) e, h))
      accepted first second (root_built t e k hash free) (root_dropped f g) h = absurd (
          cc (ap (λ o. verdict o second) hash, ap (λ o. verdict (ok (whole_hash blake3 t)) o) f, h))
      accepted first second (root_built t e k hash free) (root_unsorted f g) h = absurd (
          cc (ap (λ o. verdict o second) hash, ap (λ o. verdict (ok (whole_hash blake3 t)) o) f, h))
      accepted first second (root_built t e k hash free) (root_built u f m other clear) h =
          let both : (same_value (whole_hash blake3 t) prev
                && same_value (whole_hash blake3 u) curr)
              ≡ true =
            cc (
              ap (λ o. verdict o second) hash,
              ap (λ o. verdict (ok (whole_hash blake3 t)) o) other,
              h,
            ) in
          let old : Perm (tree_leaves t) unchanged =
            subst (λ l. Perm l unchanged) (sym e) (sort_elements-perm unchanged) in
          let new : Perm (tree_leaves u) (unchanged ++ map (committed blake3 epoch) inserted) =
            subst (λ l. Perm l (unchanged ++ map (committed blake3 epoch) inserted)) (sym f)
              (merged-perm unchanged inserted epoch) in
          record {
            before = t;
            after = u;
            before_tree = k;
            after_tree = m;
            before_leaves = old;
            after_leaves = new;
            before_hash = same_value-eq _ _ (ground (arith, both));
            after_hash = same_value-eq _ _ (ground (arith, both));
            keeps =
                λ x mem. Perm.subset (Perm.symm new) x (mem-append_left _ (Perm.subset old x mem));
          }
