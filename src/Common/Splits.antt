-- ===== src/Common/Splits.antt =====
-- Equations between appended lists.
use mathlib.Core.Path.{◌≡◌, refl}
use mathlib.Core.List.{List, [], ◌∷◌, ◌++◌}
use native.Mathlib.Omega.{arith}
use kt_witness.Common.Lists.{length}

module _ {ℓ} {A : Type ℓ} where
  pub ∷-split : {x y : A} {xs ys : List A} → x ∷ xs ≡ y ∷ ys → (x ≡ y) × (xs ≡ ys)
  ∷-split e = ground arith

  -- Two appended lists are equal part by part where their first parts are as long.
  pub append-split : (a b x y : List A) → length a ≡ length b → a ++ x ≡ b ++ y → (a ≡ b) × (x ≡ y)
  append-split [] [] x y h e = (refl, e)
  append-split (c ∷ a) [] x y h e = absurd (omega arith)
  append-split [] (d ∷ b) x y h e = absurd (omega arith)
  append-split (c ∷ a) (d ∷ b) x y h e =
      let (p, q) = ∷-split e in
      let (r, s) = append-split a b x y (omega arith) q in (ground arith, s)
