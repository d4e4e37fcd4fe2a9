-- ===== src/Akd/Decoded.antt =====
-- What Decode of internal/akdtree/decode.go gives back.
use native.Mathlib.Nat.{
  add-mul, pow-suc, mul_assoc, mul_comm, mul-one, one-mul, mul-le-mul_right, mod-lt,
}
use kt_witness.Common.{
  ℕ, ◌+◌, ◌-◌, ◌*◌, ◌%◌, ◌^◌, ◌≤◌, ◌<◌, ◌≡◌, ap, sym, subst, ◌∙◌, inl, inr, arith, Bool-cases, ◌||◌,
  not, List, [], ◌∷◌, length, ltb, ◌==◌, All,
}
use kt_witness.Akd.Label.{Element}
use kt_witness.Akd.Bits.{pow_add, pow_bytes}
use kt_witness.Signal.Frontier.Tree.{two_pow_pos}
use kt_witness.Akd.Sorted.{All-append}
use kt_witness.Akd.Prefixes.{Fits}
use kt_witness.Akd.Decode.{
  walk, spelled, copied, Partial, label_val, element_field, len_field, no_element, decode_element,
  proof_field, count_field, decode,
}
use kt_witness.Akd.Walk.{Yields, Yields-bind, Yields-if, walk_loop-Yields, read_label_loop-Yields}

spelled-bound :
    (acc : ℕ) (bs : List ℕ) (m : ℕ)
    → acc < m
    → All (λ b. b < 256) bs
    → spelled acc bs < m * 256 ^ length bs
spelled-bound acc [] m h all = subst (λ t. acc < t) (sym (mul-one m)) h
spelled-bound acc (b ∷ bs) m h (k, all) =
    let more = spelled-bound (acc * 256 + b) bs (m * 256) (omega (arith, h, k)) all in
    subst (λ t. spelled (acc * 256 + b) bs < t)
      (mul_assoc m 256 (256 ^ length bs)
        ∙ ap (λ t. m * t) (mul_comm 256 (256 ^ length bs) ∙ sym (pow-suc 256 (length bs))))
      more

copied-bound :
    (old : ℕ) (lb : List ℕ) → length lb ≤ 32 → All (λ b. b < 256) lb → copied old lb < 2 ^ 256
unfolding copied
copied-bound old lb h all =
    let n = length lb in
    let q = 256 ^ (32 - n) in
    let positive : 0 < q =
      subst (λ t. 0 < t) (sym (pow_bytes (32 - n))) (two_pow_pos (8 * (32 - n))) in
    let low : old % q < q = mod-lt old positive in
    let high : spelled 0 lb < 256 ^ n =
      subst (λ t. spelled 0 lb < t) (one-mul (256 ^ n)) (spelled-bound 0 lb 1 (omega arith) all) in
    let room : (spelled 0 lb + 1) * q ≤ 256 ^ n * q = mul-le-mul_right q (omega (arith, high)) in
    let whole : 256 ^ n * q ≡ 2 ^ 256 =
      ap (λ t. t * q) (pow_bytes n)
      ∙ ap (λ t. 2 ^ (8 * n) * t) (pow_bytes (32 - n))
      ∙ sym (pow_add (8 * n) (8 * (32 - n)))
      ∙ ap (λ t. 2 ^ t) {y = 256} (omega (arith, h)) in
    let split : (spelled 0 lb + 1) * q ≡ spelled 0 lb * q + q =
      add-mul (spelled 0 lb) 1 q ∙ ap (λ t. spelled 0 lb * q + t) (one-mul q) in
    below (spelled 0 lb * q) (old % q) q ((spelled 0 lb + 1) * q) (256 ^ n * q) low room split whole
  where
    below : (a r q s t : ℕ) → r < q → s ≤ t → s ≡ a + q → t ≡ 2 ^ 256 → a + r < 2 ^ 256
    below a r q s t h k e f = subst (λ u. a + r < u) f (omega (arith, h, k, e))

label_val-Yields :
    (field : ℕ) (lb : List ℕ) (label : ℕ)
    → All (λ b. b < 256) lb
    → label < 2 ^ 256
    → Yields (λ l. l < 2 ^ 256) (label_val field lb label)
label_val-Yields field lb label all h =
    Yields-if (λ l. l < 2 ^ 256) (field == 1) _ _
      (elim (Bool-cases (ltb 32 (length lb))) [
        | inl long ↦ simp long tt
        | inr short ↦ simp short (copied-bound label lb (ground arith) all)
      ])
      h

abbrev FitsLabel : Partial → Type 0
FitsLabel p = p.element.label < 2 ^ 256

element_field-Yields :
    (field : ℕ) (b : List ℕ) (p : Partial)
    → All (λ x. x < 256) b
    → FitsLabel p
    → Yields FitsLabel (element_field field b p)
element_field-Yields field b p all h =
    Yields-if FitsLabel (field == 1) _ _
      (Yields-bind (λ l. l < 2 ^ 256) FitsLabel (walk label_val b p.element.label) _
        (walk_loop-Yields (λ x. x < 256) (λ l. l < 2 ^ 256) label_val label_val-Yields (length b) b
          p.element.label (omega arith) all h)
        (λ label k. k))
      (Yields-if FitsLabel (field == 2) _ _ (Yields-if FitsLabel (not (length b == 32)) _ _ tt h) h)

len_field-Yields :
    (field : ℕ) (b : List ℕ) (len : ℕ)
    → All (λ x. x < 256) b
    → Unit {0}
    → Yields (λ n. Unit {0}) (len_field field b len)
len_field-Yields field b len all h =
    Yields-if (λ n. Unit {0}) (not (field == 1)) _ _ tt
      (read_label_loop-Yields (length b) b len (omega arith))

-- An element of bytes decodes to a label of 256 bits at most, or is refused.
decode_element-Yields :
    (body : List ℕ) → All (λ x. x < 256) body → Yields Fits (decode_element body)
unfolding decode_element
decode_element-Yields body all =
    Yields-bind FitsLabel Fits (walk element_field body no_element) _
      (walk_loop-Yields (λ x. x < 256) FitsLabel element_field element_field-Yields (length body)
        body no_element (omega arith) all (omega arith))
      (λ p k.
        Yields-bind (λ n. Unit {0}) Fits (walk len_field body 0) _
          (walk_loop-Yields (λ x. x < 256) (λ n. Unit {0}) len_field len_field-Yields (length body)
            body 0 (omega arith) all tt)
          (λ len u.
            Yields-if Fits (not p.saw_label || not p.saw_value) _ _ tt
              (elim (Bool-cases (ltb 256 len)) [
                | inl big ↦ simp big tt
                | inr small ↦ simp small (k, ground (arith, small))
              ])))

abbrev pub BothFit : List Element × List Element → Type 0
BothFit s = All Fits s.0 × All Fits s.1

proof_field-Yields :
    (field : ℕ) (body : List ℕ) (s : List Element × List Element)
    → All (λ x. x < 256) body
    → BothFit s
    → Yields BothFit (proof_field field body s)
proof_field-Yields field body s all (h, k) =
    Yields-bind Fits BothFit (decode_element body) _ (decode_element-Yields body all) (λ e fit.
      Yields-if BothFit (field == 1) _ _ (All-append Fits s.0 (e ∷ []) h (fit, tt), k)
        (Yields-if BothFit (field == 2) _ _ (h, All-append Fits s.1 (e ∷ []) k (fit, tt)) (h, k)))

count_field-Yields :
    (field : ℕ) (body : List ℕ) (n : ℕ × ℕ)
    → All (λ x. x < 256) body
    → Unit {0}
    → Yields (λ n. Unit {0}) (count_field field body n)
count_field-Yields field body n all h =
    Yields-if (λ n. Unit {0}) (field == 1) _ _ tt (Yields-if (λ n. Unit {0}) (field == 2) _ _ tt tt)

-- Decode comes to an end on all bytes, and every label that it gives back has 256 bits at most.
pub decode-Yields : (bytes : List ℕ) → All (λ x. x < 256) bytes → Yields BothFit (decode bytes)
unfolding decode
decode-Yields bytes all =
    Yields-bind (λ n. Unit {0}) BothFit (walk count_field bytes (0, 0)) _
      (walk_loop-Yields (λ x. x < 256) (λ n. Unit {0}) count_field count_field-Yields (length bytes)
        bytes (0, 0) (omega arith) all tt)
      (λ n u.
        walk_loop-Yields (λ x. x < 256) BothFit proof_field proof_field-Yields (length bytes) bytes
          ([], []) (omega arith) all (tt, tt))
