-- ===== src/Akd/Sorted.antt =====
-- Sorted lists of elements, and where their labels part.
use native.Mathlib.Nat.{le-div_iff_mul-le, div-mul-le_self, le_trans}
use kt_witness.Common.{
  ℕ, suc, ◌-◌, ◌/◌, ◌^◌, ◌≤◌, ◌<◌, ◌≡◌, refl, ap, sym, ◌∙◌, ◌⊎◌, inl, inr, arith, Bool-cases, ◌==◌,
  ==_iff, List, [], ◌∷◌, ◌++◌, All,
}
use kt_witness.Signal.Frontier.Tree.{two_pow_pos}
use kt_witness.Akd.Label.{Element, bit_at}
use kt_witness.Akd.Bits.{top, top-half, bit_at-top, bit_at-two}
use kt_witness.Akd.Tree.{before_bit, from_bit, last_of}

-- The order of the elements.
abbrev pub AtMost : Element → Element → Type 0
AtMost a b = ◌⊎◌ (a.label < b.label) ((a.label ≡ b.label) × (a.len ≤ b.len))

unfoldable pub Ascending : List Element → Type 0
Ascending [] = Unit
Ascending (e ∷ rest) = All (AtMost e) rest × Ascending rest

pub All-append : (P : Element → Type 0) (l m : List Element) → All P l → All P m → All P (l ++ m)
All-append P [] m p q = q
All-append P (e ∷ l) m (h, p) q = (h, All-append P l m p q)

pub All-imp :
    (P Q : Element → Type 0) (l : List Element) → ((e : Element) → P e → Q e) → All P l → All Q l
All-imp P Q [] h all = tt
All-imp P Q (e ∷ l) h (p, all) = (h e p, All-imp P Q l h all)

-- What a split at a bit leaves.
pub before_bit-append : (i : ℕ) (l : List Element) → before_bit i l ++ from_bit i l ≡ l
unfolding before_bit from_bit
before_bit-append i [] = refl
before_bit-append i (e ∷ rest) = elim (Bool-cases (bit_at e.label i == 1)) [
  | inl b ↦ simp b refl
  | inr b ↦ simp b (ap (λ l. e ∷ l) (before_bit-append i rest))
]

pub before_bit-clear : (i : ℕ) (l : List Element) → All (λ e. bit_at e.label i ≡ 0) (before_bit i l)
unfolding before_bit
before_bit-clear i [] = tt
before_bit-clear i (e ∷ rest) = elim (Bool-cases (bit_at e.label i == 1)) [
  | inl b ↦ simp b tt
  | inr b ↦
      let clear : bit_at e.label i ≡ 0 = ground (arith, bit_at-two e.label i) in
      simp b (clear, before_bit-clear i rest)
]

pub Ascending-parts : (l m : List Element) → Ascending (l ++ m) → Ascending l × Ascending m
unfolding Ascending
Ascending-parts [] m s = (tt, s)
Ascending-parts (e ∷ l) m (p, s) = let (a, b) = Ascending-parts l m s in ((All-left l m p, a), b)
  where
    All-left : (l m : List Element) → All (AtMost e) (l ++ m) → All (AtMost e) l
    All-left [] m p = tt
    All-left (x ∷ l) m (h, p) = (h, All-left l m p)

-- The labels of a sorted list that its first and last share the first bits of share them all.
top_mono : (n a b : ℕ) → a ≤ b → top n a ≤ top n b
top_mono n a b h =
    (le-div_iff_mul-le {x = a / 2 ^ (256 - n)} (two_pow_pos (256 - n))).1
      (le_trans (div-mul-le_self a (2 ^ (256 - n))) h)

-- The bit after the shared ones only rises.
bit_at_mono : (n a b : ℕ) → n < 256 → top n a ≡ top n b → a ≤ b → bit_at a n ≡ 1 → bit_at b n ≡ 1
bit_at_mono n a b h e k one = omega (
  arith,
  top-half a n h,
  top-half b n h,
  bit_at-top a n h,
  bit_at-top b n h,
  top_mono (suc n) a b k,
)

abbrev pub Shares : ℕ → ℕ → Element → Type 0
Shares n label e = top n e.label ≡ top n label

-- The last element is no smaller than the others.
last_of-most :
    (e : Element) (rest : List Element)
    → Ascending (e ∷ rest)
    → All (λ x. x.label ≤ (last_of e rest).label) (e ∷ rest)
unfolding Ascending
last_of-most e [] s = (omega arith, tt)
last_of-most e (f ∷ rest) ((h, p), s) =
    let below = last_of-most f rest s in (omega (arith, below.0, h), below)

pub Shares-between :
    (n : ℕ) (e : Element) (rest : List Element)
    → Ascending (e ∷ rest)
    → top n e.label ≡ top n (last_of e rest).label
    → All (Shares n e.label) (e ∷ rest)
unfolding Ascending
Shares-between n e rest s h = (refl, between rest s.0 (last_of-most e rest s).1)
  where
    between :
        (m : List Element)
        → All (AtMost e) m
        → All (λ x. x.label ≤ (last_of e rest).label) m
        → All (Shares n e.label) m
    between [] p q = tt
    between (x ∷ m) (low, p) (high, q) =
        let up = top_mono n e.label x.label (omega (arith, low)) in
        let down = top_mono n x.label (last_of e rest).label high in
        (omega (arith, up, down, h), between m p q)

pub from_bit-set :
    (n label : ℕ) (l : List Element)
    → n < 256
    → Ascending l
    → All (Shares n label) l
    → All (λ e. bit_at e.label n ≡ 1) (from_bit n l)
unfolding from_bit Ascending
from_bit-set n label [] h s all = tt
from_bit-set n label (e ∷ rest) h (p, s) (q, all) = elim (Bool-cases (bit_at e.label n == 1)) [
  | inl b ↦ let one : bit_at e.label n ≡ 1 = (==_iff _ _).0 b in simp b (one, rises rest p all one)
  | inr b ↦ simp b (from_bit-set n label rest h s all)
]
  where
    rises :
        (m : List Element)
        → All (AtMost e) m
        → All (Shares n label) m
        → bit_at e.label n ≡ 1
        → All (λ x. bit_at x.label n ≡ 1) m
    rises [] p all one = tt
    rises (x ∷ m) (h', p) (k, all) one =
        (bit_at_mono n e.label x.label h (q ∙ sym k) (omega (arith, h')) one, rises m p all one)
