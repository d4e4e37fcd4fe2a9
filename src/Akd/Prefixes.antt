-- ===== src/Akd/Prefixes.antt =====
-- When one label is the beginning of another, and which lists have no such pair.
use native.Mathlib.Nat.{div-div-eq-div-mul, div-mul-le_self, mul-div_cancel, mul_assoc}
use kt_witness.Common.{
  ℕ, suc, ◌-◌, ◌*◌, ◌/◌, ◌^◌, ◌≤◌, ◌<◌, ◌≡◌, ap, sym, ◌∙◌, ◌⊎◌, inl, inr, arith, List, [], ◌∷◌,
  ◌++◌, All,
}
use kt_witness.Signal.Frontier.Tree.{two_pow_pos}
use kt_witness.Akd.Label.{Element, bit_at}
use kt_witness.Akd.Bits.{top, pow_add, bit_at-top}
use kt_witness.Akd.Tree.{last_of}
use kt_witness.Akd.Trie.{kept_bits}
use kt_witness.Akd.Sorted.{AtMost, Shares, All-append}

-- What decoding ensures of an element.
abbrev pub Fits : Element → Type 0
Fits e = (e.label < 2 ^ 256) × (e.len ≤ 256)

-- The bits after the label's length are clear.
abbrev pub IsNormal : Element → Type 0
IsNormal e = e.label ≡ kept_bits e.len e.label

abbrev pub IsPrefix : Element → Element → Type 0
IsPrefix e f = (e.len ≤ f.len) × Shares e.len e.label f

unfoldable pub NoPrefix : List Element → Type 0
NoPrefix [] = Unit
NoPrefix (e ∷ rest) = All (λ f. ¬ IsPrefix e f) rest × NoPrefix rest

-- Fewer of the first bits.
top-cut : (n m label : ℕ) → n ≤ m → m ≤ 256 → top n label ≡ top m label / 2 ^ (m - n)
top-cut n m label h k =
    ap (λ t. label / t) (ap (λ t. 2 ^ t) (omega arith) ∙ pow_add (256 - m) (m - n))
    ∙ sym (div-div-eq-div-mul label (2 ^ (256 - m)) (2 ^ (m - n)))

pub top-shares : (n m a b : ℕ) → n ≤ m → m ≤ 256 → top m a ≡ top m b → top n a ≡ top n b
top-shares n m a b h k e = top-cut n m a h k ∙ ap (λ t. t / 2 ^ (m - n)) e ∙ sym (top-cut n m b h k)

-- A label with its last bits clear has fewer of them clear.
kept_bits-more :
    (m n label : ℕ) → m ≤ n → n ≤ 256 → label ≡ kept_bits m label → label ≡ kept_bits n label
kept_bits-more m n label h k e =
    let q = top m label * 2 ^ (n - m) in
    let same : label ≡ q * 2 ^ (256 - n) =
      e
      ∙ ap (λ t. top m label * t) (ap (λ t. 2 ^ t) (omega arith) ∙ pow_add (n - m) (256 - n))
      ∙ sym (mul_assoc (top m label) (2 ^ (n - m)) (2 ^ (256 - n))) in
    same
    ∙ ap (λ t. t * 2 ^ (256 - n))
        (sym (ap (λ t. t / 2 ^ (256 - n)) same ∙ mul-div_cancel q (two_pow_pos (256 - n))))

-- An element that follows one longer than the bits they share is longer than them too.
pub longer :
    (n : ℕ) (e x : Element)
    → n ≤ 256
    → n < e.len
    → AtMost e x
    → Shares n e.label x
    → IsNormal x
    → n < x.len
longer n e x small long le same normal = elim (le_or_lt x.len n) [
  | inl short ↦
      let clear : x.label ≡ kept_bits n e.label =
        kept_bits-more x.len n x.label short small normal ∙ ap (λ t. t * 2 ^ (256 - n)) same in
      let below = div-mul-le_self e.label (2 ^ (256 - n)) in
      absurd (omega (arith, clear, below, le, short, long))
  | inr h ↦ h
]
  where
    le_or_lt : (a b : ℕ) → ◌⊎◌ (a ≤ b) (b < a)
    le_or_lt a b = ground arith

pub longer_all :
    (n : ℕ) (e : Element) (l : List Element)
    → n ≤ 256
    → n < e.len
    → All (AtMost e) l
    → All (Shares n e.label) l
    → All IsNormal l
    → All (λ x. n < x.len) l
longer_all n e [] small long le same normal = tt
longer_all n e (x ∷ l) small long (h, le) (s, same) (k, normal) =
    (longer n e x small long h s k, longer_all n e l small long le same normal)

-- Labels that part at a bit of both are not prefixes of each other.
parts-IsPrefix :
    (n : ℕ) (e f : Element)
    → n < e.len
    → e.len ≤ 256
    → bit_at e.label n ≡ 0
    → bit_at f.label n ≡ 1
    → ¬ IsPrefix e f
parts-IsPrefix n e f long small a b (len, same) =
    let more : top (suc n) f.label ≡ top (suc n) e.label =
      top-shares (suc n) e.len f.label e.label (omega (arith, long)) small same in
    omega (
      arith,
      a,
      b,
      bit_at-top e.label n (omega (arith, long, small)),
      bit_at-top f.label n (omega (arith, long, small)),
      more,
    )

pub NoPrefix-append :
    (n : ℕ) (l r : List Element)
    → All (λ e. n < e.len) l
    → All Fits l
    → All (λ e. bit_at e.label n ≡ 0) l
    → All (λ e. bit_at e.label n ≡ 1) r
    → NoPrefix l
    → NoPrefix r
    → NoPrefix (l ++ r)
unfolding NoPrefix
NoPrefix-append n [] r long fits zeros ones p q = q
NoPrefix-append n (e ∷ l) r (h, long) (small, fits) (z, zeros) ones (free, p) q = (
  All-append (λ f. ¬ IsPrefix e f) l r free (apart r ones),
  NoPrefix-append n l r long fits zeros ones p q,
)
  where
    apart : (m : List Element) → All (λ f. bit_at f.label n ≡ 1) m → All (λ f. ¬ IsPrefix e f) m
    apart [] all = tt
    apart (f ∷ m) (one, all) = (parts-IsPrefix n e f h small.1 z one, apart m all)

pub NoPrefix-parts : (l r : List Element) → NoPrefix (l ++ r) → NoPrefix l × NoPrefix r
unfolding NoPrefix
NoPrefix-parts [] r p = (tt, p)
NoPrefix-parts (e ∷ l) r (h, p) = let (a, b) = NoPrefix-parts l r p in ((left l h, a), b)
  where
    left : (m : List Element) → All (λ f. ¬ IsPrefix e f) (m ++ r) → All (λ f. ¬ IsPrefix e f) m
    left [] all = tt
    left (f ∷ m) (g, all) = (g, left m all)

pub All-last :
    (P : Element → Type 0) (e : Element) (l : List Element) → All P (e ∷ l) → P (last_of e l)
All-last P e [] (h, all) = h
All-last P e (f ∷ l) (h, all) = All-last P f l all
