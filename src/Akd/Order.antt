-- ===== src/Akd/Order.antt =====
-- Sort and merge of internal/akdtree/verify.go.
use mathlib.Core.List.{Perm, perm_middle}
use mathlib.Core.List.Perm
use kt_witness.Common.{◌≡◌, inl, inr, arith, true, false, Bool-cases, List, [], ◌∷◌, ◌++◌, All}
use kt_witness.Akd.Label.{Element, element_less}
use kt_witness.Akd.Tree.{insert_element, sort_elements, merge, merge_one}
use kt_witness.Akd.Sorted.{AtMost, Ascending, All-imp}

less-AtMost : (e f : Element) → element_less e f ≡ true → AtMost e f
less-AtMost e f h = ground arith

not_less-AtMost : (e f : Element) → element_less e f ≡ false → AtMost f e
not_less-AtMost e f h = ground arith

AtMost-trans : (e f g : Element) → AtMost e f → AtMost f g → AtMost e g
AtMost-trans e f g h k = ground arith

below : (e f : Element) (l : List Element) → AtMost e f → All (AtMost f) l → All (AtMost e) l
below e f l h all = All-imp (AtMost f) (AtMost e) l (λ g. AtMost-trans e f g h) all

insert_element-All :
    (P : Element → Type 0) (e : Element) (l : List Element)
    → P e
    → All P l
    → All P (insert_element e l)
unfolding insert_element
insert_element-All P e [] p all = (p, tt)
insert_element-All P e (f ∷ rest) p (q, all) = elim (Bool-cases (element_less f e)) [
  | inl b ↦ simp b (q, insert_element-All P e rest p all)
  | inr b ↦ simp b (p, (q, all))
]

pub sort_elements-All :
    (P : Element → Type 0) (l : List Element) → All P l → All P (sort_elements l)
unfolding sort_elements
sort_elements-All P [] all = tt
sort_elements-All P (e ∷ rest) (p, all) =
    insert_element-All P e (sort_elements rest) p (sort_elements-All P rest all)

insert_element-Ascending :
    (e : Element) (l : List Element) → Ascending l → Ascending (insert_element e l)
unfolding insert_element Ascending
insert_element-Ascending e [] s = (tt, tt)
insert_element-Ascending e (f ∷ rest) (h, s) = elim (Bool-cases (element_less f e)) [
  | inl b ↦ simp b (
    insert_element-All (AtMost f) e rest (less-AtMost f e b) h,
    insert_element-Ascending e rest s,
  )
  | inr b ↦ let first = not_less-AtMost f e b in simp b ((first, below e f rest first h), (h, s))
]

pub sort_elements-Ascending : (l : List Element) → Ascending (sort_elements l)
unfolding sort_elements Ascending
sort_elements-Ascending [] = tt
sort_elements-Ascending (e ∷ rest) =
    insert_element-Ascending e (sort_elements rest) (sort_elements-Ascending rest)

insert_element-perm : (e : Element) (l : List Element) → Perm (insert_element e l) (e ∷ l)
unfolding insert_element
insert_element-perm e [] = Perm.rfl
insert_element-perm e (f ∷ rest) = elim (Bool-cases (element_less f e)) [
  | inl b ↦ simp b (Perm.trans (Perm.cons f (insert_element-perm e rest)) (Perm.swap e f rest))
  | inr b ↦ simp b Perm.rfl
]

pub sort_elements-perm : (l : List Element) → Perm (sort_elements l) l
unfolding sort_elements
sort_elements-perm [] = Perm.rfl
sort_elements-perm (e ∷ rest) =
    Perm.trans (insert_element-perm e (sort_elements rest)) (Perm.cons e (sort_elements-perm rest))

pub merge-perm : (l m : List Element) → Perm (merge l m) (l ++ m)
unfolding merge merge_one
merge-perm [] m = Perm.rfl
merge-perm (e ∷ l) [] = Perm.cons e (merge-perm l [])
merge-perm (e ∷ l) (f ∷ m) = elim (Bool-cases (element_less e f)) [
  | inl b ↦ simp b (Perm.cons e (merge-perm l (f ∷ m)))
  | inr b ↦
      simp b (Perm.trans (Perm.cons f (merge-perm (e ∷ l) m)) (Perm.symm (perm_middle (e ∷ l) m)))
]

pub merge-All : (P : Element → Type 0) (l m : List Element) → All P l → All P m → All P (merge l m)
unfolding merge merge_one
merge-All P [] m p q = q
merge-All P (e ∷ l) [] (h, p) q = (h, merge-All P l [] p tt)
merge-All P (e ∷ l) (f ∷ m) (h, p) (k, q) = elim (Bool-cases (element_less e f)) [
  | inl b ↦ simp b (h, merge-All P l (f ∷ m) p (k, q))
  | inr b ↦ simp b (k, merge-All P (e ∷ l) m (h, p) q)
]

pub merge-Ascending : (l m : List Element) → Ascending l → Ascending m → Ascending (merge l m)
unfolding merge merge_one Ascending
merge-Ascending [] m s t = t
merge-Ascending (e ∷ l) [] (h, s) t = (merge-All (AtMost e) l [] h tt, merge-Ascending l [] s tt)
merge-Ascending (e ∷ l) (f ∷ m) (h, s) (k, t) = elim (Bool-cases (element_less e f)) [
  | inl b ↦
      let first = less-AtMost e f b in
      simp b (
        merge-All (AtMost e) l (f ∷ m) h (first, below e f m first k),
        merge-Ascending l (f ∷ m) s (k, t),
      )
  | inr b ↦
      let first = not_less-AtMost e f b in
      simp b (
        merge-All (AtMost f) (e ∷ l) m (first, below f e l first h) k,
        merge-Ascending (e ∷ l) m (h, s) t,
      )
]
