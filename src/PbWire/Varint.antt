-- ===== src/PbWire/Varint.antt =====
-- AppendVarint and strictUvarint: what is written is read back.
use native.Mathlib.Nat.{div-add-mod}
use native.Mathlib.Decide.{dec_lt}
use native.Mathlib.Numerals.{towards_suc}
use mathlib.Core.List.{append_assoc, append-nil}
use kt_witness.Common.{
  length, ℕ, zero, suc, ◌+◌, ◌*◌, ◌/◌, ◌%◌, ◌^◌, ◌≤◌, ◌<◌, ◌≡◌, refl, ap, sym, ◌∙◌, subst, ◌&&◌,
  ==_iff, lt→ltb, false, List, [], ◌∷◌, ◌++◌, arith, ltb, ◌==◌, Bool-cases, inl, inr,
}
use kt_witness.PbWire.{ok, append_loop, append_varint, strict_loop, strict_uvarint}

append_loop-append : (k : ℕ) (b : List ℕ) (v : ℕ) → append_loop k b v ≡ b ++ append_loop k [] v
unfolding append_loop
append_loop-append zero b v = sym (append-nil b)
append_loop-append (suc k) b v = elim (Bool-cases (v / 128 == 0)) [
  | inl last ↦ rw last refl
  | inr more ↦ rw more (
      append_loop-append k _ (v / 128)
      ∙ append_assoc b _ _
      ∙ ap (λ l. b ++ l) (sym (append_loop-append k ((v % 128 + 128) ∷ []) (v / 128))))
]

-- The weight of the next group.
pub weight : (n : ℕ) → 2 ^ (7 * (n + 1)) ≡ 128 * 2 ^ (7 * n)
weight n = let e : 7 * (n + 1) ≡ 7 * n + 7 = omega arith in rw e (simp towards_suc (omega arith))

-- The tenth group fits if the value does.
overflow_guard : (n x : ℕ) → x * 2 ^ (7 * n) < 2 ^ 64 → ((n == 9) && ltb 1 x) ≡ false
overflow_guard n x h = elim (Bool-cases (n == 9)) [
  | inr other ↦ rw other refl
  | inl tenth ↦
      let e : n ≡ 9 = (==_iff n 9).0 tenth in
      let h' : x * 2 ^ 63 < 2 ^ 64 = subst (λ m. x * 2 ^ (7 * m) < 2 ^ 64) e h in ground arith
]

split_groups : (u p : ℕ) → u % 128 * p + u / 128 * (128 * p) ≡ u * p
split_groups u p = omega (arith, ap (λ (t : ℕ). t * p) (div-add-mod u 128))

append_loop-last : (k u : ℕ) → u / 128 ≡ 0 → append_loop (suc k) [] u ≡ (u % 128) ∷ []
unfolding append_loop
append_loop-last k u h = rw h refl

append_loop-more :
    (k u : ℕ)
    → (u / 128 == 0) ≡ false
    → append_loop (suc k) [] u ≡ (u % 128 + 128) ∷ append_loop k [] (u / 128)
unfolding append_loop
append_loop-more k u h = rw h (append_loop-append k ((u % 128 + 128) ∷ []) (u / 128))

strict_loop-last :
    (k n v x : ℕ) (bs : List ℕ)
    → ((n == 9) && ltb 1 x) ≡ false
    → x < 128
    → strict_loop (suc k) n v (x ∷ bs) ≡ ok (v + x * 2 ^ (7 * n), bs)
unfolding strict_loop
strict_loop-last k n v x bs fits small =
    let same : x % 128 ≡ x = omega arith in rw (fits, lt→ltb x 128 small, same) refl

strict_loop-more :
    (k n v x : ℕ) (bs : List ℕ)
    → (n == 9) ≡ false
    → x < 128
    → strict_loop (suc k) n v ((x + 128) ∷ bs) ≡ strict_loop k (n + 1) (v + x * 2 ^ (7 * n)) bs
unfolding strict_loop
strict_loop-more k n v x bs early small =
    let same : (x + 128) % 128 ≡ x = omega arith in
    let large : ltb (x + 128) 128 ≡ false = ground arith in rw (early, large, same) refl

-- The rest of the value, from group n on.
abbrev ReadsBack : ℕ → Type 0
ReadsBack zero = Unit
ReadsBack (suc k) =
    (n acc u : ℕ) (rest : List ℕ)
    → suc k + n ≡ 10
    → u * 2 ^ (7 * n) < 2 ^ 64
    → strict_loop (suc k) n acc (append_loop (suc k) [] u ++ rest)
      ≡ ok (acc + u * 2 ^ (7 * n), rest)

further :
    (k n acc u : ℕ) (rest : List ℕ)
    → suc k + n ≡ 10
    → u * 2 ^ (7 * n) < 2 ^ 64
    → 128 ≤ u
    → ReadsBack k
    → strict_loop (suc k) n acc (append_loop (suc k) [] u ++ rest)
      ≡ ok (acc + u * 2 ^ (7 * n), rest)
further zero n acc u rest e h large ih =
    let ninth : n ≡ 9 = omega arith in
    let h' : u * 2 ^ 63 < 2 ^ 64 = subst (λ m. u * 2 ^ (7 * m) < 2 ^ 64) ninth h in
    absurd (omega arith)
further (suc k) n acc u rest e h large ih =
    let more : (u / 128 == 0) ≡ false = ground arith in
    let early : (n == 9) ≡ false = ground arith in
    rw (append_loop-more (suc k) u more) (
      strict_loop-more (suc k) n acc (u % 128) (append_loop (suc k) [] (u / 128) ++ rest) early
        (omega arith)
      ∙ ih (n + 1) _ (u / 128) rest (omega arith) (
          omega
            (arith, weight n, split_groups u (2 ^ (7 * n)), ap (λ (t : ℕ). u / 128 * t) (weight n)))
      ∙ ap (λ x. ok (x, rest))
          (omega (arith, split_groups u (2 ^ (7 * n)), ap (λ (t : ℕ). u / 128 * t) (weight n))))

reads_back : (k : ℕ) → ReadsBack k
reads_back zero = tt
reads_back (suc k) = λ n acc u rest e h. elim (dec_lt u 128) [
  | yes small ↦
      let same : u % 128 ≡ u = omega arith in
      rw (append_loop-last k u (omega arith), same)
        (strict_loop-last k n acc u rest (overflow_guard n u h) small)
  | no large ↦ further k n acc u rest e h (omega arith) (reads_back k)
]

-- Every 64-bit value that AppendVarint writes, whatever follows it, is read back by strictUvarint,
-- which stops where the value ends.
pub strict_uvarint-append_varint :
    (v : ℕ) (rest : List ℕ)
    → v < 2 ^ 64
    → strict_uvarint (append_varint [] v ++ rest) ≡ ok (v, rest)
unfolding strict_uvarint append_varint
strict_uvarint-append_varint v rest h =
    reads_back 10 0 0 v rest refl (omega arith) ∙ ap (λ x. ok (x, rest)) (omega arith)

-- AppendVarint leaves what the buffer holds.
pub append_varint-append : (b : List ℕ) (v : ℕ) → append_varint b v ≡ b ++ append_varint [] v
unfolding append_varint
append_varint-append b v = append_loop-append 10 b v

length-append_loop : (k v : ℕ) → length (append_loop k [] v) ≤ k
unfolding append_loop
length-append_loop zero v = omega arith
length-append_loop (suc k) v = elim (Bool-cases (v / 128 == 0)) [
  | inl last ↦ rw last (omega arith)
  | inr more ↦ rw (append_loop-more k v more) (omega (arith, length-append_loop k (v / 128)))
]

-- A varint takes at most ten bytes.
pub length-append_varint : (v : ℕ) → length (append_varint [] v) ≤ 10
unfolding append_varint
length-append_varint v = length-append_loop 10 v
