-- ===== src/Akd/Rebuilt.antt =====
-- What Root of internal/akdtree/verify.go builds of sorted elements.
use kt_witness.Common.{
  ℕ, suc, ◌+◌, ◌≤◌, ◌<◌, ◌≡◌, ◌↔◌, refl, ap, sym, subst, ◌∙◌, arith, length, length-append, List,
  [], ◌∷◌, ◌++◌, All, Option, none, some,
}
use kt_witness.Signal.Node.{Value}
use kt_witness.Akd.Label.{Element, bit_at}
use kt_witness.Akd.Bits.{top_zero}
use kt_witness.Akd.Tree.{
  Attempt, dropped, unsorted, ok, then_build, before_bit, from_bit, subtree, root_hash, parent_hash,
  hash2, root_label_value,
}
use kt_witness.Akd.Trie.{
  Trie, Tree, nothing, sides, side_leaves, tree_leaves, SideTrie, IsTrie, IsTree, side_hash,
  whole_hash,
}
use kt_witness.Akd.Sorted.{
  Ascending, All-imp, before_bit-append, before_bit-clear, Ascending-parts, Shares, from_bit-set,
}
use kt_witness.Akd.Prefixes.{Fits, IsNormal, NoPrefix, NoPrefix-append, NoPrefix-parts}
use kt_witness.Akd.Built.{All-parts, Built, is_dropped, is_unsorted, is_built, subtree-Built}

module _ (blake3 : List ℕ → Value) where
  -- A side of the root, which may have no elements.
  data Side (elems : List Element) (result : Attempt (Value × Value)) : Type 0 where
    side_dropped : result ≡ dropped → ¬ NoPrefix elems → Side elems result
    side_unsorted : result ≡ unsorted → ¬ All IsNormal elems → Side elems result
    side_built :
        (side : Option Trie)
        → side_leaves side ≡ elems
        → SideTrie IsTrie side
        → result ≡ ok (side_hash blake3 side)
        → (All IsNormal elems → NoPrefix elems)
        → Side elems result

  one_half : (l : List Element) (r : Attempt (Value × Value)) → Built blake3 l r → Side l r
  unfolding side_leaves side_hash
  one_half l r (is_dropped e h) = side_dropped e h
  one_half l r (is_unsorted e h) = side_unsorted e h
  one_half l r (is_built t e k hash free) = side_built (some t) e k hash free

  subtree-Side :
      (rounds : ℕ) (l : List Element)
      → length l ≤ suc rounds
      → Ascending l
      → All Fits l
      → Side l (subtree blake3 rounds l)
  unfolding side_leaves side_hash subtree NoPrefix
  subtree-Side rounds [] h s fits = side_built none refl tt refl (λ normal. tt)
  subtree-Side rounds (e ∷ l) h s fits =
      one_half (e ∷ l) _ (subtree-Built blake3 rounds (e ∷ l) (ground arith) h s fits)

  -- What Root makes of a list, with the reason where it makes no tree of it.
  pub data Rebuilt (elems : List Element) (result : Attempt Value) : Type 0 where
    root_dropped : result ≡ dropped → ¬ NoPrefix elems → Rebuilt elems result
    root_unsorted : result ≡ unsorted → ¬ All IsNormal elems → Rebuilt elems result
    root_built :
        (t : Tree)
        → tree_leaves t ≡ elems
        → IsTree t
        → result ≡ ok (whole_hash blake3 t)
        → (All IsNormal elems → All (λ e. 0 < e.len) elems → NoPrefix elems)
        → Rebuilt elems result

  abbrev joined : Attempt (Value × Value) → Attempt (Value × Value) → Attempt Value
  joined left right = then_build left (λ l.
      then_build right
        (λ r. ok (hash2 blake3 (parent_hash blake3 l.0 l.1 r.0 r.1) (root_label_value blake3))))

  joined-Rebuilt :
      (l r : List Element) (left right : Attempt (Value × Value))
      → All Fits l
      → All (λ e. bit_at e.label 0 ≡ 0) l
      → All (λ e. bit_at e.label 0 ≡ 1) r
      → Side l left
      → Side r right
      → Rebuilt (l ++ r) (joined left right)
  unfolding tree_leaves IsTree whole_hash
  joined-Rebuilt l r left right fits zeros ones (side_dropped e h) b =
      root_dropped (ap (λ o. joined o right) e) (λ p. h (NoPrefix-parts l r p).0)
  joined-Rebuilt l r left right fits zeros ones (side_unsorted e h) b =
      root_unsorted (ap (λ o. joined o right) e) (λ p. h (All-parts IsNormal l r p).0)
  joined-Rebuilt l r left right fits zeros ones (side_built t e k hash free) (side_dropped f h) =
      root_dropped (ap (λ o. joined o right) hash ∙ ap (λ o. joined (ok (side_hash blake3 t)) o) f)
        (λ p. h (NoPrefix-parts l r p).1)
  joined-Rebuilt l r left right fits zeros ones (side_built t e k hash free) (side_unsorted f h) =
      root_unsorted (ap (λ o. joined o right) hash ∙ ap (λ o. joined (ok (side_hash blake3 t)) o) f)
        (λ p. h (All-parts IsNormal l r p).1)
  joined-Rebuilt l r left right fits zeros ones (side_built t e k hash free)
        (side_built u f m other clear) =
      root_built (sides t u) (ap (λ x. x ++ side_leaves u) e ∙ ap (λ x. l ++ x) f)
        (
          subst (All (λ x. bit_at x.label 0 ≡ 0)) (sym e) zeros,
          subst (All (λ x. bit_at x.label 0 ≡ 1)) (sym f) ones,
          k,
          m,
        )
        (ap (λ o. joined o right) hash ∙ ap (λ o. joined (ok (side_hash blake3 t)) o) other)
        (λ normal long.
          let (a, b) = All-parts IsNormal l r normal in
          NoPrefix-append 0 l r (All-parts (λ x. 0 < x.len) l r long).0 fits zeros ones (free a)
            (clear b))

  -- Root of a sorted list of elements that fit builds the tree of all of them, or says why not.
  pub root_hash-Rebuilt :
      (l : List Element) → Ascending l → All Fits l → Rebuilt l (root_hash blake3 l)
  unfolding root_hash tree_leaves IsTree whole_hash NoPrefix
  root_hash-Rebuilt [] s fits = root_built nothing refl tt refl (λ normal long. tt)
  root_hash-Rebuilt (e ∷ l) s fits =
      let elems = e ∷ l in
      let whole = before_bit-append 0 elems in
      let sizes : length (before_bit 0 elems) + length (from_bit 0 elems) ≡ length elems =
        sym (length-append _ _) ∙ ap length whole in
      let (a, b) =
        Ascending-parts (before_bit 0 elems) (from_bit 0 elems) (subst Ascending (sym whole) s) in
      let (c, d) =
        All-parts Fits (before_bit 0 elems) (from_bit 0 elems)
          (subst (All Fits) (sym whole) fits) in
      let shares =
        All-imp Fits (Shares 0 0) elems
          (λ x fit. top_zero x.label fit.0 ∙ sym (top_zero 0 (omega arith))) fits in
      subst
        (λ m. Rebuilt m (
          joined (subtree blake3 (length elems) (before_bit 0 elems))
            (subtree blake3 (length elems) (from_bit 0 elems))))
        whole
        (joined-Rebuilt _ _ _ _ c (before_bit-clear 0 elems)
          (from_bit-set 0 0 elems (omega arith) s shares)
          (subtree-Side (length elems) (before_bit 0 elems) (omega (arith, sizes)) a c)
          (subtree-Side (length elems) (from_bit 0 elems) (omega (arith, sizes)) b d))

  -- Root builds a tree exactly when no label is the beginning of another.
  pub root_iff_free :
      (l : List Element)
      → Ascending l
      → All Fits l
      → All IsNormal l
      → All (λ e. 0 < e.len) l
      → NoPrefix l ↔ ((v : Value) × (root_hash blake3 l ≡ ok v))
  root_iff_free l s fits normal long = outcome (root_hash blake3 l) (root_hash-Rebuilt l s fits)
    where
      outcome : (r : Attempt Value) → Rebuilt l r → NoPrefix l ↔ ((v : Value) × (r ≡ ok v))
      outcome r (root_dropped e h) = (λ p. absurd (h p), λ q. absurd (cc (e, q.1)))
      outcome r (root_unsorted e h) = absurd (h normal)
      outcome r (root_built t e k hash free) =
          (λ p. (whole_hash blake3 t, hash), λ q. free normal long)
