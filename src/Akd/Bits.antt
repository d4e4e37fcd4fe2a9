-- ===== src/Akd/Bits.antt =====
-- The first bits of a label.
use native.Mathlib.Nat.{pow-suc, div-div-eq-div-mul, mul_assoc, mul_comm, mul-one, add-mul}
use kt_witness.Common.{
  ℕ, zero, suc, ◌+◌, ◌-◌, ◌*◌, ◌/◌, ◌%◌, ◌^◌, ◌≤◌, ◌<◌, ◌≡◌, ◌≢◌, refl, ap, sym, subst, ◌∙◌, inl,
  inr, arith, Bool-cases, ◌==◌, ==_iff, leb, ltb, false, if◌then◌else◌, ◌&&◌,
}
use kt_witness.Akd.Label.{Element, byte_of, bit_at, common_loop, common_prefix_len, prefix_of}

pub pow_add : (a b : ℕ) → 2 ^ (a + b) ≡ 2 ^ a * 2 ^ b
pow_add a zero = ap (λ k. 2 ^ k) (omega arith) ∙ sym (mul-one (2 ^ a))
pow_add a (suc b) =
    ap (λ k. 2 ^ k) (omega arith)
    ∙ pow-suc 2 (a + b)
    ∙ ap (λ t. t * 2) (pow_add a b)
    ∙ mul_assoc (2 ^ a) (2 ^ b) 2
    ∙ ap (λ t. 2 ^ a * t) (sym (pow-suc 2 b))

pub pow_bytes : (n : ℕ) → 256 ^ n ≡ 2 ^ (8 * n)
pow_bytes zero = refl
pow_bytes (suc n) =
    pow-suc 256 n
    ∙ ap (λ t. t * 256) (pow_bytes n)
    ∙ sym (pow_add (8 * n) 8)
    ∙ ap (λ k. 2 ^ k) (omega arith)

-- A bit of a byte is a bit of what the byte is cut from.
low_bit : (y k : ℕ) → k ≤ 7 → y % 256 / 2 ^ k % 2 ≡ y / 2 ^ k % 2
low_bit y zero h = omega arith
low_bit y (suc zero) h = omega arith
low_bit y (suc (suc zero)) h = omega arith
low_bit y (suc (suc (suc zero))) h = omega arith
low_bit y (suc (suc (suc (suc zero)))) h = omega arith
low_bit y (suc (suc (suc (suc (suc zero))))) h = omega arith
low_bit y (suc (suc (suc (suc (suc (suc zero)))))) h = omega arith
low_bit y (suc (suc (suc (suc (suc (suc (suc zero))))))) h = omega arith
low_bit y (suc (suc (suc (suc (suc (suc (suc (suc k)))))))) h = absurd (omega arith)

-- The first n bits of a label, as a number.
abbrev pub top : ℕ → ℕ → ℕ
top n label = label / 2 ^ (256 - n)

pub bit_at-top : (label i : ℕ) → i < 256 → bit_at label i ≡ top (suc i) label % 2
unfolding bit_at
bit_at-top label i h =
    low_bit (label / 256 ^ (31 - i / 8)) (7 - i % 8) (omega arith)
    ∙ ap (λ t. t % 2)
        (div-div-eq-div-mul label (256 ^ (31 - i / 8)) (2 ^ (7 - i % 8))
          ∙ ap (λ t. label / t)
              (ap (λ t. t * 2 ^ (7 - i % 8)) (pow_bytes (31 - i / 8))
                ∙ sym (pow_add (8 * (31 - i / 8)) (7 - i % 8))
                ∙ ap (λ t. 2 ^ t) (omega arith)))

-- One bit fewer.
pub top-half : (label i : ℕ) → i < 256 → top i label ≡ top (suc i) label / 2
top-half label i h =
    ap (λ t. label / t) (ap (λ t. 2 ^ t) (omega arith) ∙ pow-suc 2 (256 - suc i))
    ∙ sym (div-div-eq-div-mul label (2 ^ (256 - suc i)) 2)

-- One bit more that two labels share, or eight.
pub top-suc :
    (a b i : ℕ)
    → i < 256
    → top i a ≡ top i b
    → bit_at a i ≡ bit_at b i
    → top (suc i) a ≡ top (suc i) b
top-suc a b i h e k =
    omega (arith, top-half a i h, top-half b i h, bit_at-top a i h, bit_at-top b i h)

-- A whole byte of a label.
byte_of-top :
    (label i : ℕ) → i % 8 ≡ 0 → i + 8 ≤ 256 → byte_of label (i / 8) ≡ top (i + 8) label % 256
byte_of-top label i e h =
    ap (λ t. label / t % 256) (pow_bytes (31 - i / 8) ∙ ap (λ t. 2 ^ t) (omega arith))

top-byte : (label i : ℕ) → i + 8 ≤ 256 → top i label ≡ top (i + 8) label / 256
top-byte label i h =
    ap (λ t. label / t) (ap (λ t. 2 ^ t) (omega arith) ∙ pow_add (256 - (i + 8)) 8)
    ∙ sym (div-div-eq-div-mul label (2 ^ (256 - (i + 8))) 256)

top-add_byte :
    (a b i : ℕ)
    → i % 8 ≡ 0
    → i + 8 ≤ 256
    → top i a ≡ top i b
    → byte_of a (i / 8) ≡ byte_of b (i / 8)
    → top (i + 8) a ≡ top (i + 8) b
top-add_byte a b i e h same byte =
    omega (arith, top-byte a i h, top-byte b i h, byte_of-top a i e h, byte_of-top b i e h)

pub top_zero : (label : ℕ) → label < 2 ^ 256 → top 0 label ≡ 0
top_zero label h = omega arith

pub bit_at-two : (label i : ℕ) → bit_at label i < 2
unfolding bit_at
bit_at-two label i = omega arith

-- Where two labels part: how many of the first bits they share, at most `shorter`.
pub record IsCommon (a b shorter n : ℕ) : Type 0 where
  pub shares : top n a ≡ top n b
  pub within : n ≤ shorter
  pub parts : n < shorter → bit_at a n ≢ bit_at b n

common_loop-IsCommon :
    (rounds a b shorter i : ℕ)
    → shorter ≤ 256
    → i ≤ shorter
    → shorter < i + rounds
    → top i a ≡ top i b
    → IsCommon a b shorter (common_loop rounds a b shorter i)
unfolding common_loop
common_loop-IsCommon zero a b shorter i small h fuel e = absurd (omega arith)
common_loop-IsCommon (suc rounds) a b shorter i small h fuel e = elim (Bool-cases (leb shorter i)) [
  | inl end ↦ simp end (record { shares = e; within = h; parts = λ k. absurd (ground arith) })
  | inr more ↦
      elim (Bool-cases
        ((i % 8 == 0) && leb (i + 8) shorter && (byte_of a (i / 8) == byte_of b (i / 8)))) [
          | inl byte ↦
              simp (more, byte)
                (common_loop-IsCommon rounds a b shorter (i + 8) small (ground arith) (omega arith)
                  (top-add_byte a b i (ground arith) (ground arith) e (ground arith)))
          | inr byte ↦ elim (Bool-cases (bit_at a i == bit_at b i)) [
            | inl same ↦
                simp (more, byte, same)
                  (common_loop-IsCommon rounds a b shorter (i + 1) small (ground arith)
                    (omega arith)
                    (ap (λ n. top n a) (omega arith)
                      ∙ top-suc a b i (ground arith) e ((==_iff _ _).0 same)
                      ∙ ap (λ n. top n b) (omega arith)))
            | inr differ ↦
                simp (more, byte, differ)
                  (record {
                    shares = e;
                    within = h;
                    parts = λ k same. ground (arith, differ, (==_iff _ _).1 same);
                  })
          ]
        ]
]

-- commonPrefixLen counts the leading bits that two labels share, at most the length of the shorter
-- one; its steps of a whole byte change nothing.
pub common_prefix_len-IsCommon :
    (a b : Element)
    → a.len ≤ 256
    → b.len ≤ 256
    → a.label < 2 ^ 256
    → b.label < 2 ^ 256
    → IsCommon a.label b.label (if ltb b.len a.len then b.len else a.len) (common_prefix_len a b)
unfolding common_prefix_len
common_prefix_len-IsCommon a b h k l m =
    let shorter = if ltb b.len a.len then b.len else a.len in
    common_loop-IsCommon (shorter + 1) a.label b.label shorter 0 (ground arith) (omega arith)
      (omega arith) (top_zero a.label l ∙ sym (top_zero b.label m))

-- Bits above a byte's low ones, and the low ones cleared.
cut_byte : (y k : ℕ) → k ≤ 7 → y / 256 * 256 + y % 256 / 2 ^ k * 2 ^ k % 256 ≡ y / 2 ^ k * 2 ^ k
cut_byte y zero h = omega arith
cut_byte y (suc zero) h = omega arith
cut_byte y (suc (suc zero)) h = omega arith
cut_byte y (suc (suc (suc zero))) h = omega arith
cut_byte y (suc (suc (suc (suc zero)))) h = omega arith
cut_byte y (suc (suc (suc (suc (suc zero))))) h = omega arith
cut_byte y (suc (suc (suc (suc (suc (suc zero)))))) h = omega arith
cut_byte y (suc (suc (suc (suc (suc (suc (suc zero))))))) h = omega arith
cut_byte y (suc (suc (suc (suc (suc (suc (suc (suc k)))))))) h = absurd (omega arith)

gather : (a p c : ℕ) → a * (p * 256) + c * p ≡ (a * 256 + c) * p
gather a p c =
    ap (λ t. t + c * p) (ap (λ t. a * t) (mul_comm p 256) ∙ sym (mul_assoc a 256 p))
    ∙ sym (add-mul (a * 256) c p)

-- prefixOf keeps the first bits of a label and clears the others.
pub prefix_of_lem :
    (label l : ℕ) → label < 2 ^ 256 → l < 256 → prefix_of label l ≡ top l label * 2 ^ (256 - l)
unfolding prefix_of
prefix_of_lem label l small h =
    let last = (l - 1) / 8 in
    let k = 7 - (l - 1) % 8 in
    let p = 256 ^ (31 - last) in
    let short : leb 256 l ≡ false = ground arith in
    elim (Bool-cases (l == 0)) [
      | inl z ↦
          let none : l ≡ 0 = (==_iff l 0).0 z in
          simp (short, z) (subst (λ n. 0 ≡ top n label * 2 ^ (256 - n)) (sym none) (omega arith))
      | inr z ↦
          simp (short, z)
            (let some : l ≢ 0 = ground arith in
              let wide : 256 ^ (32 - last) ≡ p * 256 =
                ap (λ t. 256 ^ t) (omega arith) ∙ pow-suc 256 (31 - last) in
              let high : label / 256 ^ (32 - last) ≡ label / p / 256 =
                ap (λ t. label / t) wide ∙ sym (div-div-eq-div-mul label p 256) in
              let exponent : p * 2 ^ k ≡ 2 ^ (256 - l) =
                ap (λ t. t * 2 ^ k) (pow_bytes (31 - last))
                ∙ sym (pow_add (8 * (31 - last)) k)
                ∙ ap (λ t. 2 ^ t) (omega arith) in
              ap (λ t. t + byte_of label last / 2 ^ k * 2 ^ k % 256 * p)
                (ap (λ t. t * 256 ^ (32 - last)) high ∙ ap (λ t. label / p / 256 * t) wide)
              ∙ gather (label / p / 256) p (byte_of label last / 2 ^ k * 2 ^ k % 256)
              ∙ ap (λ t. t * p) (cut_byte (label / p) k (omega arith))
              ∙ mul_assoc (label / p / 2 ^ k) (2 ^ k) p
              ∙ ap (λ t. label / p / 2 ^ k * t) (mul_comm (2 ^ k) p ∙ exponent)
              ∙ ap (λ t. t * 2 ^ (256 - l))
                  (div-div-eq-div-mul label p (2 ^ k) ∙ ap (λ t. label / t) exponent))
    ]
