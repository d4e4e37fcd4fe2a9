-- ===== src/Akd/Built.antt =====
-- What subtree of internal/akdtree/verify.go builds of sorted elements.
use kt_witness.Common.{
  ℕ, zero, suc, ◌+◌, ◌-◌, ◌*◌, ◌^◌, ◌≤◌, ◌<◌, ◌≡◌, refl, ap, sym, subst, ◌∙◌, inl, inr, arith,
  false, Bool-cases, ◌==◌, length, length-append, ◌||◌, List, [], ◌∷◌, ◌++◌, All,
}
use kt_witness.Signal.Node.{Value}
use kt_witness.Akd.Label.{Element, bit_at, prefix_of}
use kt_witness.Akd.Bits.{prefix_of_lem}
use kt_witness.Akd.Tree.{
  Attempt, dropped, unsorted, ok, then_build, before_bit, from_bit, subtree, label_value,
  parent_hash,
}
use kt_witness.Akd.Trie.{Trie, leaf, branch, leaves, kept_bits, IsTrie, label_hash, trie_hash}
use kt_witness.Akd.Sorted.{
  Ascending, All-imp, before_bit-append, before_bit-clear, Ascending-parts, Shares,
}
use kt_witness.Akd.Prefixes.{Fits, IsNormal, NoPrefix, NoPrefix-append, NoPrefix-parts}
use kt_witness.Akd.Range.{
  IsRange, lcp_of, range-Shares, dropped-NoPrefix, range-long, few_bits, ones_after,
  unsorted-IsNormal,
}

pub All-parts : (P : Element → Type 0) (l r : List Element) → All P (l ++ r) → All P l × All P r
All-parts P [] r all = (tt, all)
All-parts P (e ∷ l) r (h, all) = let (a, b) = All-parts P l r all in ((h, a), b)

module _ (blake3 : List ℕ → Value) where
  -- What the recursion makes of a list, with the reason where it makes no trie of it.
  pub data Built (elems : List Element) (result : Attempt (Value × Value)) : Type 0 where
    is_dropped : result ≡ dropped → ¬ NoPrefix elems → Built elems result
    is_unsorted : result ≡ unsorted → ¬ All IsNormal elems → Built elems result
    is_built :
        (t : Trie)
        → leaves t ≡ elems
        → IsTrie t
        → result ≡ ok (trie_hash blake3 t, label_hash blake3 t)
        → (All IsNormal elems → NoPrefix elems)
        → Built elems result

  -- The node over the two halves.
  abbrev node : ℕ → ℕ → Attempt (Value × Value) → Attempt (Value × Value) → Attempt (Value × Value)
  node label n left right = then_build left (λ l.
      then_build right (λ r. ok (parent_hash blake3 l.0 l.1 r.0 r.1, label_value blake3 label n)))

  record IsSplit (label n : ℕ) (l r : List Element) : Type 0 where
    few : n < 256
    shares : All (λ e. kept_bits n e.label ≡ label) (l ++ r)
    zeros : All (λ e. bit_at e.label n ≡ 0) l
    ones : All (λ e. bit_at e.label n ≡ 1) r
    fits : All Fits (l ++ r)
    long : All IsNormal (l ++ r) → All (λ e. n < e.len) (l ++ r)

  node-Built :
      (label n : ℕ) (l r : List Element) (left right : Attempt (Value × Value))
      → IsSplit label n l r
      → Built l left
      → Built r right
      → Built (l ++ r) (node label n left right)
  unfolding leaves IsTrie trie_hash label_hash
  node-Built label n l r left right split (is_dropped e h) b =
      is_dropped (ap (λ o. node label n o right) e) (λ p. h (NoPrefix-parts l r p).0)
  node-Built label n l r left right split (is_unsorted e h) b =
      is_unsorted (ap (λ o. node label n o right) e) (λ p. h (All-parts IsNormal l r p).0)
  node-Built label n l r left right split (is_built t e k hash free) (is_dropped f h) =
      is_dropped
        (ap (λ o. node label n o right) hash
          ∙ ap (λ o. node label n (ok (trie_hash blake3 t, label_hash blake3 t)) o) f)
        (λ p. h (NoPrefix-parts l r p).1)
  node-Built label n l r left right split (is_built t e k hash free) (is_unsorted f h) =
      is_unsorted
        (ap (λ o. node label n o right) hash
          ∙ ap (λ o. node label n (ok (trie_hash blake3 t, label_hash blake3 t)) o) f)
        (λ p. h (All-parts IsNormal l r p).1)
  node-Built label n l r left right split (is_built t e k hash free) (is_built u f m other clear) =
      is_built (branch label n t u) (ap (λ x. x ++ leaves u) e ∙ ap (λ x. l ++ x) f)
        (
          split.few,
          subst (All (λ x. kept_bits n x.label ≡ label))
              (sym (ap (λ x. x ++ leaves u) e ∙ ap (λ x. l ++ x) f)) split.shares,
          subst (All (λ x. bit_at x.label n ≡ 0)) (sym e) split.zeros,
          subst (All (λ x. bit_at x.label n ≡ 1)) (sym f) split.ones,
          k,
          m,
        )
        (ap (λ o. node label n o right) hash
          ∙ ap (λ o. node label n (ok (trie_hash blake3 t, label_hash blake3 t)) o) other)
        (λ normal.
          let (a, b) = All-parts IsNormal l r normal in
          NoPrefix-append n l r (All-parts (λ x. n < x.len) l r (split.long normal)).0
            (All-parts Fits l r split.fits).0 split.zeros split.ones (free a) (clear b))

  range-IsSplit :
      (e f : Element) (rest : List Element)
      → IsRange e f rest
      → (e.len == lcp_of e f rest) ≡ false
      → IsSplit
          (prefix_of e.label (lcp_of e f rest))
          (lcp_of e f rest)
          (before_bit (lcp_of e f rest) (e ∷ f ∷ rest))
          (from_bit (lcp_of e f rest) (e ∷ f ∷ rest))
  range-IsSplit e f rest range d =
      let n = lcp_of e f rest in
      let whole = sym (before_bit-append n (e ∷ f ∷ rest)) in
      record {
        few = few_bits e f rest range d;
        shares = subst (All (λ x. kept_bits n x.label ≡ prefix_of e.label n)) whole (
            All-imp (Shares n e.label) (λ x. kept_bits n x.label ≡ prefix_of e.label n)
              (e ∷ f ∷ rest)
              (λ x same.
                ap (λ t. t * 2 ^ (256 - n)) same
                ∙ sym (prefix_of_lem e.label n range.fits.0.0 (few_bits e f rest range d)))
              (range-Shares e f rest range));
        zeros = before_bit-clear n (e ∷ f ∷ rest);
        ones = ones_after e f rest range d;
        fits = subst (All Fits) whole range.fits;
        long = λ normal.
            subst (All (λ x. n < x.len)) whole
              (range-long e f rest range d (subst (All IsNormal) (sym whole) normal));
      }

  -- subtree of a sorted list of elements that fit comes to an end and builds the trie of all of them,
  -- or says why it does not.
  pub subtree-Built :
      (rounds : ℕ) (l : List Element)
      → (length l == 0) ≡ false
      → length l ≤ suc rounds
      → Ascending l
      → All Fits l
      → Built l (subtree blake3 rounds l)
  unfolding subtree leaves IsTrie trie_hash label_hash NoPrefix
  subtree-Built rounds [] some h s fits = absurd (ground arith)
  subtree-Built rounds (e ∷ []) some h s fits = is_built (leaf e) refl tt refl (λ normal. (tt, tt))
  subtree-Built zero (e ∷ f ∷ rest) some h s fits = absurd (omega arith)
  subtree-Built (suc rounds) (e ∷ f ∷ rest) some h s fits =
      let range : IsRange e f rest = record { sorted = s; fits = fits } in
      let n = lcp_of e f rest in
      let elems = e ∷ f ∷ rest in
      let whole = before_bit-append n elems in
      let sizes : length (before_bit n elems) + length (from_bit n elems) ≡ length elems =
        sym (length-append _ _) ∙ ap length whole in
      elim (Bool-cases (e.len == n)) [
        | inl d ↦ is_dropped (simp d refl) (dropped-NoPrefix e f rest range d)
        | inr d ↦
            elim (Bool-cases
              ((length (before_bit n elems) == 0) || (length (from_bit n elems) == 0))) [
                | inl u ↦ is_unsorted (simp (d, u) refl) (unsorted-IsNormal e f rest range d u)
                | inr u ↦
                    let (a, b) = Ascending-parts _ _ (subst Ascending (sym whole) s) in
                    let (c, k) = All-parts Fits _ _ (subst (All Fits) (sym whole) fits) in
                    simp (d, u)
                      (subst
                        (λ l. Built l (
                          node (prefix_of e.label n) n (subtree blake3 rounds (before_bit n elems))
                            (subtree blake3 rounds (from_bit n elems))))
                        whole
                        (node-Built (prefix_of e.label n) n _ _ _ _ (range-IsSplit e f rest range d)
                          (subtree-Built rounds (before_bit n elems) (ground (arith, u))
                            (ground (arith, sizes, h, u)) a c)
                          (subtree-Built rounds (from_bit n elems) (ground (arith, u))
                            (ground (arith, sizes, h, u)) b k)))
              ]
      ]
