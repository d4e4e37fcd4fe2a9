-- ===== src/Akd/Verdict.antt =====
-- Roots of internal/akdtree/verify.go: when it reaches a verdict, and a label that it lets pass.
use kt_witness.Common.{
  ℕ, suc, ◌%◌, ◌≤◌, ◌<◌, ◌≡◌, ◌≢◌, ◌↔◌, refl, ap, sym, ◌∙◌, ◌⊎◌, inl, inr, arith, true, false, ◌==◌,
  ◌&&◌, ltb, map, if◌then◌else◌, List, [], ◌∷◌, All,
}
use kt_witness.Signal.Node.{Value}
use kt_witness.Signal.Consistency.{same_value}
use kt_witness.Akd.Label.{Element, bit_at, common_prefix_len, prefix_of}
use kt_witness.Akd.Bits.{common_prefix_len-IsCommon, bit_at-top}
use kt_witness.Akd.Tree.{
  Attempt, stuck, dropped, unsorted, ok, then_build, before_bit, from_bit, sort_elements, merged,
  committed, subtree, root_hash, roots, verify_append_only, parent_hash, label_value,
}
use kt_witness.Akd.Sorted.{Ascending, Shares}
use kt_witness.Akd.Prefixes.{Fits, IsNormal, IsPrefix, NoPrefix, top-shares}
use kt_witness.Akd.Order.{sort_elements-All, sort_elements-Ascending, merge-All}
use kt_witness.Akd.Rebuilt.{
  root_dropped, root_unsorted, root_built, root_hash-Rebuilt, root_iff_free,
}
use kt_witness.Akd.AppendOnly.{merged-Ascending, merged-Fits}

then_build_ok :
    {A B : Type 0} (o : Attempt A) (next : A → Attempt B) (b : B)
    → then_build o next ≡ ok b
    → (a : A) × (o ≡ ok a) × (next a ≡ ok b)
then_build_ok stuck next b h = absurd cc
then_build_ok dropped next b h = absurd cc
then_build_ok unsorted next b h = absurd cc
then_build_ok (ok a) next b h = (a, refl, h)

shared-common_prefix_len :
    (a b : Element)
    → Fits a
    → Fits b
    → b.len < a.len
    → Shares b.len b.label a
    → common_prefix_len a b ≡ b.len
shared-common_prefix_len a b fa fb short same =
    let n = common_prefix_len a b in
    let c = common_prefix_len-IsCommon a b fa.1 fb.1 fa.0 fb.0 in
    let picked : (if ltb b.len a.len then b.len else a.len) ≡ b.len = ground (arith, short) in
    let within : n ≤ b.len = omega (arith, c.within, picked) in
    elim (at_or_below n b.len within) [
      | inl e ↦ e
      | inr h ↦
          let more = top-shares (suc n) b.len a.label b.label h fb.1 same in
          absurd (
            c.parts (omega (arith, h, picked)) (
              bit_at-top a.label n (omega (arith, h, fb.1))
              ∙ ap (λ t. t % 2) more
              ∙ sym (bit_at-top b.label n (omega (arith, h, fb.1)))))
    ]
  where
    at_or_below : (n m : ℕ) → n ≤ m → ◌⊎◌ (n ≡ m) (n < m)
    at_or_below n m h = ground arith

module _ (blake3 : List ℕ → Value) where
  -- Root of a sorted list of elements that fit comes to an end.
  root_ends : (l : List Element) → Ascending l → All Fits l → root_hash blake3 l ≢ stuck
  root_ends l s fits h = elim (root_hash-Rebuilt blake3 l s fits) [
    | root_dropped e f ↦ cc (e, h)
    | root_unsorted e f ↦ cc (e, h)
    | root_built t e k hash free ↦ cc (hash, h)
  ]

  -- VerifyAppendOnly comes to an end, with a verdict or an error, on all elements that decode.
  pub verify_append_only_ends :
      (unchanged inserted : List Element) (prev curr : Value) (epoch : ℕ)
      → All Fits unchanged
      → All Fits inserted
      → verify_append_only blake3 unchanged inserted prev curr epoch ≢ stuck
  unfolding verify_append_only roots
  verify_append_only_ends unchanged inserted prev curr epoch a b =
      go (root_hash blake3 (sort_elements unchanged))
        (root_hash blake3 (merged blake3 unchanged inserted epoch))
        (root_ends (sort_elements unchanged) (sort_elements-Ascending unchanged)
          (sort_elements-All Fits unchanged a))
        (root_ends (merged blake3 unchanged inserted epoch)
          (merged-Ascending blake3 unchanged inserted epoch)
          (merged-Fits blake3 unchanged inserted epoch a b))
    where
      go :
          (first second : Attempt Value)
          → first ≢ stuck
          → second ≢ stuck
          → then_build {A = Value × Value}
              (then_build {B = Value × Value} first
                (λ p. then_build {B = Value × Value} second (λ c. ok (p, c))))
              (λ r. ok (same_value r.0 prev && same_value r.1 curr))
            ≢ stuck
      go stuck second h k e = h refl
      go dropped second h k e = cc
      go unsorted second h k e = cc
      go (ok p) stuck h k e = k refl
      go (ok p) dropped h k e = cc
      go (ok p) unsorted h k e = cc
      go (ok p) (ok c) h k e = cc

  merged-All :
      (P : Element → Type 0) (unchanged inserted : List Element) (epoch : ℕ)
      → All P unchanged
      → All P (map (committed blake3 epoch) inserted)
      → All P (merged blake3 unchanged inserted epoch)
  merged-All P unchanged inserted epoch a b =
      merge-All P _ _ (sort_elements-All P unchanged a) (sort_elements-All P _ b)

  -- With labels that have no bits beyond their length and are not empty, Roots reaches a verdict
  -- exactly when no label of either tree is the beginning of another.
  pub roots_iff_free :
      (unchanged inserted : List Element) (epoch : ℕ)
      → All Fits unchanged
      → All IsNormal unchanged
      → All (λ e. 0 < e.len) unchanged
      → All Fits (map (committed blake3 epoch) inserted)
      → All IsNormal (map (committed blake3 epoch) inserted)
      → All (λ e. 0 < e.len) (map (committed blake3 epoch) inserted)
      → (NoPrefix (sort_elements unchanged) × NoPrefix (merged blake3 unchanged inserted epoch))
        ↔ ((r : Value × Value) × (roots blake3 unchanged inserted epoch ≡ ok r))
  unfolding roots
  roots_iff_free unchanged inserted epoch a b c d e f =
      let first =
        root_iff_free blake3 (sort_elements unchanged) (sort_elements-Ascending unchanged)
          (sort_elements-All Fits unchanged a) (sort_elements-All IsNormal unchanged b)
          (sort_elements-All (λ e. 0 < e.len) unchanged c) in
      let second =
        root_iff_free blake3 (merged blake3 unchanged inserted epoch)
          (merged-Ascending blake3 unchanged inserted epoch)
          (merged-All Fits unchanged inserted epoch a d)
          (merged-All IsNormal unchanged inserted epoch b e)
          (merged-All (λ e. 0 < e.len) unchanged inserted epoch c f) in
      (
        λ free.
            let (p, h) = first.0 free.0 in
            let (q, k) = second.0 free.1 in
            (
              (p, q),
              ap
                    (λ o. then_build {B = Value × Value} o (λ p.
                      then_build {B = Value × Value}
                        (root_hash blake3 (merged blake3 unchanged inserted epoch))
                        (λ c. ok (p, c))))
                    h
                  ∙ ap (λ o. then_build {B = Value × Value} o (λ c. ok (p, c))) k,
            ),
        λ result.
            let (p, h, k) = then_build_ok _ _ result.0 result.1 in
            let (q, l, m) = then_build_ok _ _ result.0 k in (first.1 (p, h), second.1 (q, l)),
      )

  -- Where a label is the beginning of a longer one that goes on with a 0, and its own bit at the place
  -- directly after its end is 1, subtree builds a node over the longer and the shorter one, in this
  -- order, without an error.
  pub subtree_hidden_prefix :
      (rounds : ℕ) (a b : Element)
      → Fits a
      → Fits b
      → b.len < a.len
      → Shares b.len b.label a
      → bit_at a.label b.len ≡ 0
      → bit_at b.label b.len ≡ 1
      → IsPrefix b a
        × (subtree blake3 (suc rounds) (a ∷ b ∷ [])
            ≡ ok (
              parent_hash blake3 a.value
                  (label_value blake3 a.label a.len)
                  b.value
                  (label_value blake3 b.label b.len),
              label_value blake3 (prefix_of a.label b.len) b.len,
            ))
  unfolding subtree before_bit from_bit
  subtree_hidden_prefix rounds a b fa fb short same zero_bit one_bit =
      let whole = shared-common_prefix_len a b fa fb short same in
      let longer : (a.len == b.len) ≡ false = ground (arith, short) in
      let clear : (bit_at a.label b.len == 1) ≡ false = ground (arith, zero_bit) in
      let set : (bit_at b.label b.len == 1) ≡ true = ground (arith, one_bit) in
      ((omega (arith, short), same), simp (whole, longer, clear, set) refl)
