-- ===== src/Akd/Range.antt =====
-- The range of subtree of internal/akdtree/verify.go and its two halves.
use mathlib.Core.List.{append-nil}
use kt_witness.Common.{
  ℕ, ◌≤◌, ◌<◌, ◌≡◌, ◌≢◌, refl, ap, sym, subst, ◌∙◌, inl, inr, arith, true, false, Bool-cases, ◌==◌,
  ==_iff, ltb, length, ◌||◌, if◌then◌else◌, List, [], ◌∷◌, ◌++◌, All,
}
use kt_witness.Akd.Label.{Element, bit_at, common_prefix_len}
use kt_witness.Akd.Bits.{top, IsCommon, common_prefix_len-IsCommon}
use kt_witness.Akd.Tree.{before_bit, from_bit, last_of}
use kt_witness.Akd.Sorted.{
  Ascending, before_bit-append, before_bit-clear, Shares, Shares-between, from_bit-set,
}
use kt_witness.Akd.Prefixes.{Fits, IsNormal, IsPrefix, NoPrefix, All-last, longer_all}

-- A sorted range of at least two elements: where it is split, and what each half has.
pub record IsRange (e f : Element) (rest : List Element) : Type 0 where
  pub sorted : Ascending (e ∷ f ∷ rest)
  pub fits : All Fits (e ∷ f ∷ rest)

abbrev pub lcp_of : Element → Element → List Element → ℕ
lcp_of e f rest = common_prefix_len e (last_of f rest)

pub range-IsCommon :
    (e f : Element) (rest : List Element)
    → IsRange e f rest
    → IsCommon e.label
        (last_of f rest).label
        (if ltb (last_of f rest).len e.len then (last_of f rest).len else e.len)
        (lcp_of e f rest)
range-IsCommon e f rest range =
    let first : Fits e = range.fits.0 in
    let last : Fits (last_of f rest) = All-last Fits f rest range.fits.1 in
    common_prefix_len-IsCommon e (last_of f rest) first.1 last.1 first.0 last.0

pub range-Shares :
    (e f : Element) (rest : List Element)
    → IsRange e f rest
    → All (Shares (lcp_of e f rest) e.label) (e ∷ f ∷ rest)
range-Shares e f rest range =
    Shares-between (lcp_of e f rest) e (f ∷ rest) range.sorted
      (range-IsCommon e f rest range).shares

pub lcp-bound :
    (e f : Element) (rest : List Element)
    → IsRange e f rest
    → (lcp_of e f rest ≤ e.len) × (lcp_of e f rest ≤ (last_of f rest).len) × (e.len ≤ 256)
lcp-bound e f rest range =
    let c = range-IsCommon e f rest range in
    let within = c.within in (ground arith, ground arith, range.fits.0.1)

pub dropped-NoPrefix :
    (e f : Element) (rest : List Element)
    → IsRange e f rest
    → (e.len == lcp_of e f rest) ≡ true
    → ¬ NoPrefix (e ∷ f ∷ rest)
unfolding NoPrefix
dropped-NoPrefix e f rest range d (free, p) =
    let same : e.len ≡ lcp_of e f rest = (==_iff _ _).0 d in
    let c = range-IsCommon e f rest range in
    let (a, b, k) = lcp-bound e f rest range in
    All-last (λ x. ¬ IsPrefix e x) f rest free
      (
        omega (arith, same, b),
        ap (λ n. top n (last_of f rest).label) same
            ∙ sym c.shares
            ∙ ap (λ n. top n e.label) (sym same),
      )

pub range-long :
    (e f : Element) (rest : List Element)
    → IsRange e f rest
    → (e.len == lcp_of e f rest) ≡ false
    → All IsNormal (e ∷ f ∷ rest)
    → All (λ x. lcp_of e f rest < x.len) (e ∷ f ∷ rest)
unfolding Ascending
range-long e f rest range d (k, normal) =
    let (a, b, c) = lcp-bound e f rest range in
    let long : lcp_of e f rest < e.len = ground (arith, a, d) in
    (
      long,
      longer_all (lcp_of e f rest) e (f ∷ rest) (omega (arith, a, c)) long range.sorted.0
          (range-Shares e f rest range).1 normal,
    )

pub few_bits :
    (e f : Element) (rest : List Element)
    → IsRange e f rest
    → (e.len == lcp_of e f rest) ≡ false
    → lcp_of e f rest < 256
few_bits e f rest range d = let (a, b, c) = lcp-bound e f rest range in ground (arith, a, c, d)

pub ones_after :
    (e f : Element) (rest : List Element)
    → IsRange e f rest
    → (e.len == lcp_of e f rest) ≡ false
    → All (λ x. bit_at x.label (lcp_of e f rest) ≡ 1) (from_bit (lcp_of e f rest) (e ∷ f ∷ rest))
ones_after e f rest range d =
    from_bit-set (lcp_of e f rest) e.label (e ∷ f ∷ rest) (few_bits e f rest range d) range.sorted
      (range-Shares e f rest range)

pub length_none : (l : List Element) → (length l == 0) ≡ true → l ≡ []
length_none [] h = refl
length_none (e ∷ l) h = absurd (ground arith)

-- A list whose first and last differ at a bit is not all of one value there.
empty_half :
    (n k : ℕ) (e f : Element) (rest : List Element)
    → All (λ x. bit_at x.label n ≡ k) (e ∷ f ∷ rest)
    → bit_at e.label n ≡ bit_at (last_of f rest).label n
empty_half n k e f rest all = all.0 ∙ sym (All-last (λ x. bit_at x.label n ≡ k) e (f ∷ rest) all)

-- A half is empty only where some label has bits beyond its length.
pub unsorted-IsNormal :
    (e f : Element) (rest : List Element)
    → IsRange e f rest
    → (e.len == lcp_of e f rest) ≡ false
    → ((length (before_bit (lcp_of e f rest) (e ∷ f ∷ rest)) == 0)
        || (length (from_bit (lcp_of e f rest) (e ∷ f ∷ rest)) == 0))
      ≡ true
    → ¬ All IsNormal (e ∷ f ∷ rest)
unsorted-IsNormal e f rest range d u normal =
    let n = lcp_of e f rest in
    let elems = e ∷ f ∷ rest in
    let all = range-long e f rest range d normal in
    let c = range-IsCommon e f rest range in
    let last = All-last (λ x. n < x.len) f rest all.1 in
    let differ : bit_at e.label n ≢ bit_at (last_of f rest).label n =
      c.parts (ground (arith, all.0, last)) in
    elim (Bool-cases (length (before_bit n elems) == 0)) [
      | inl none ↦
          let whole : from_bit n elems ≡ elems =
            ap (λ l. l ++ from_bit n elems) (sym (length_none _ none))
            ∙ before_bit-append n elems in
          differ (
            empty_half n 1 e f rest
              (subst (All (λ x. bit_at x.label n ≡ 1)) whole (ones_after e f rest range d)))
      | inr some ↦
          let none : (length (from_bit n elems) == 0) ≡ true = ground (arith, u, some) in
          let whole : before_bit n elems ≡ elems =
            sym (append-nil (before_bit n elems))
            ∙ ap (λ l. before_bit n elems ++ l) (sym (length_none _ none))
            ∙ before_bit-append n elems in
          differ (
            empty_half n 0 e f rest
              (subst (All (λ x. bit_at x.label n ≡ 0)) whole (before_bit-clear n elems)))
    ]
