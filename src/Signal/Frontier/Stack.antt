-- ===== src/Signal/Frontier/Stack.antt =====
-- The full subtrees behind a frontier of a size: one for each set bit, as high as the bit, and how
-- Append's carry adds one.
use mathlib.Core.List.{append_assoc}
use kt_witness.Common.{
  ℕ, zero, suc, ◌+◌, ◌*◌, ◌/◌, ◌%◌, ◌^◌, ◌<◌, ◌≡◌, refl, ap, sym, subst, ◌∙◌, List, [], ◌∷◌, ◌++◌,
  length, arith, length-append,
}
use kt_witness.Signal.Node.{Value, Node}
use kt_witness.Signal.Frontier.{ok, carry_up, ones_count}
use kt_witness.Signal.Frontier.Tree.{
  Tree, branch, leaves, node_of, IsFull, full_branch, interior-IsFull, length-IsFull,
}

-- The subtrees from the right, which make up `s` times 2 ^ lvl leaves.
pub data Stack : ℕ → ℕ → List Tree → Type 0 where
  done : (lvl : ℕ) → Stack lvl 0 []
  even : (lvl s : ℕ) (ts : List Tree) → Stack (suc lvl) s ts → Stack lvl (2 * s) ts
  odd :
      (lvl s : ℕ) (t : Tree) (ts : List Tree)
      → IsFull lvl t
      → Stack (suc lvl) s ts
      → Stack lvl (2 * s + 1) (t ∷ ts)

abbrev pub all_leaves : List Tree → List Value
all_leaves [] = []
all_leaves (t ∷ rest) = all_leaves rest ++ leaves t

ones_count-zero : (width : ℕ) → ones_count width 0 ≡ 0
unfolding ones_count
ones_count-zero zero = refl
ones_count-zero (suc width) = omega (arith, ones_count-zero width)

pub length-Stack :
    (width lvl s : ℕ) (ts : List Tree)
    → Stack lvl s ts
    → s < 2 ^ width
    → length ts ≡ ones_count width s
unfolding ones_count
length-Stack zero lvl s ts (done _) h = refl
length-Stack zero lvl s ts (even _ s' _ st) h = length-Stack zero (suc lvl) s' ts st (omega arith)
length-Stack zero lvl s ts (odd _ s' t ts' f st) h = absurd (omega arith)
length-Stack (suc width) lvl s ts (done _) h = sym (ones_count-zero (suc width))
length-Stack (suc width) lvl s ts (even _ s' _ st) h =
    let bit : 2 * s' % 2 ≡ 0 = omega arith in
    let more : 2 * s' / 2 ≡ s' = omega arith in
    rw (bit, more) (omega (arith, length-Stack width (suc lvl) s' ts st (omega arith)))
length-Stack (suc width) lvl s ts (odd _ s' t ts' f st) h =
    let bit : (2 * s' + 1) % 2 ≡ 1 = omega arith in
    let more : (2 * s' + 1) / 2 ≡ s' = omega arith in
    rw (bit, more) (omega (arith, length-Stack width (suc lvl) s' ts' st (omega arith)))

pub length-all_leaves :
    (lvl s : ℕ) (ts : List Tree) → Stack lvl s ts → length (all_leaves ts) ≡ s * 2 ^ lvl
length-all_leaves lvl s ts (done _) = omega arith
length-all_leaves lvl s ts (even _ s' _ st) = grind (arith, length-all_leaves (suc lvl) s' ts st)
length-all_leaves lvl s ts (odd _ s' t ts' f st) = grind (
  arith,
  length-all_leaves (suc lvl) s' ts' st,
  length-IsFull lvl t f,
  length-append (all_leaves ts') (leaves t),
)

module _ (sha256 : List ℕ → Value) where
  abbrev pub values : List Tree → List Value
  values [] = []
  values (t ∷ ts) = (node_of sha256 t).value ∷ values ts

  pub length-values : (ts : List Tree) → length (values ts) ≡ length ts
  length-values [] = refl
  length-values (t ∷ ts) = ap suc (length-values ts)

  carry_up-even :
      (s lvl : ℕ) (l : List Value) (carry : Node)
      → s % 2 ≡ 0
      → carry_up sha256 s lvl l carry ≡ ok (carry.value ∷ l)
  unfolding carry_up
  carry_up-even s lvl [] carry h = rw h refl
  carry_up-even s lvl (x ∷ l) carry h = rw h refl

  carry_up-odd :
      (s lvl : ℕ) (t u : Tree) (l : List Value)
      → IsFull lvl t
      → carry_up sha256 (2 * s + 1) lvl ((node_of sha256 t).value ∷ l) (node_of sha256 u)
        ≡ carry_up sha256 s (suc lvl) l (node_of sha256 (branch t u))
  unfolding carry_up
  carry_up-odd s lvl t u l f =
      let bit : (2 * s + 1) % 2 ≡ 1 = omega arith in
      let rest : (2 * s + 1) / 2 ≡ s = omega arith in
      rw (bit, rest, sym (interior-IsFull sha256 lvl t f)) refl

  -- The carry that Append starts ends in the stack of one more subtree.
  pub carry_up-Stack :
      (lvl s : ℕ) (ts : List Tree) (t : Tree)
      → Stack lvl s ts
      → IsFull lvl t
      → (ts' : List Tree) × (carry_up sha256 s lvl (values ts) (node_of sha256 t) ≡ ok (values ts'))
        × Stack lvl (s + 1) ts'
        × (all_leaves ts' ≡ all_leaves ts ++ leaves t)
  carry_up-Stack lvl s ts t (done _) f =
      (t ∷ [], carry_up-even 0 lvl [] _ refl, odd lvl 0 t [] f (done (suc lvl)), refl)
  carry_up-Stack lvl s ts t (even _ s' _ st) f =
      (t ∷ ts, carry_up-even (2 * s') lvl _ _ (omega arith), odd lvl s' t ts f st, refl)
  carry_up-Stack lvl s ts t (odd _ s' u us fu st) f =
      let (ts', run, st', all) =
        carry_up-Stack (suc lvl) s' us (branch u t) st (full_branch lvl u t fu f) in
      (
        ts',
        carry_up-odd s' lvl u t (values us) fu ∙ run,
        subst (λ n. Stack lvl n ts') (omega arith) (even lvl (s' + 1) ts' st'),
        all ∙ sym (append_assoc (all_leaves us) (leaves u) (leaves t)),
      )
