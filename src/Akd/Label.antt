-- ===== src/Akd/Label.antt =====
-- Labels and elements of internal/akdtree/verify.go. A label of 32 bytes is the number that it spells,
-- so bytes.Compare of two labels is the order of the numbers; a value is the list of its bytes.
use kt_witness.Common.{
  ℕ, zero, suc, ◌+◌, ◌-◌, ◌*◌, ◌/◌, ◌%◌, ◌^◌, Bool, ◌&&◌, ◌||◌, ltb, leb, ◌==◌, if◌then◌else◌,
}
use kt_witness.Signal.Node.{Value}

pub record Element : Type 0 where
  pub label : ℕ
  pub len : ℕ
  pub value : Value

-- label[j]
abbrev pub byte_of : ℕ → ℕ → ℕ
byte_of label j = label / 256 ^ (31 - j) % 256

unfoldable pub bit_at : ℕ → ℕ → ℕ
bit_at label i = byte_of label (i / 8) / 2 ^ (7 - i % 8) % 2

-- The loop of commonPrefixLen, in as many rounds as there may be bits.
unfoldable pub common_loop : ℕ → ℕ → ℕ → ℕ → ℕ → ℕ
common_loop zero a b shorter i = i
common_loop (suc rounds) a b shorter i =
    let next =
      if (i % 8 == 0) && leb (i + 8) shorter && (byte_of a (i / 8) == byte_of b (i / 8))
      then i + 8
      else i + 1 in
    let rest = common_loop rounds a b shorter next in
    if leb shorter i
    then i
    else if (i % 8 == 0) && leb (i + 8) shorter && (byte_of a (i / 8) == byte_of b (i / 8))
    then rest
    else if bit_at a i == bit_at b i
    then rest
    else i

unfoldable pub common_prefix_len : Element → Element → ℕ
unfolding common_loop
common_prefix_len a b =
    let shorter = if ltb b.len a.len then b.len else a.len in
    common_loop (shorter + 1) a.label b.label shorter 0

-- The bytes before the last one are kept, the last one loses its low bits, and zeros follow.
unfoldable pub prefix_of : ℕ → ℕ → ℕ
prefix_of label l =
    let last = (l - 1) / 8 in
    let rem = (l - 1) % 8 in
    let cut = byte_of label last / 2 ^ (7 - rem) * 2 ^ (7 - rem) % 256 in
    if leb 256 l
    then label
    else if l == 0
    then 0
    else label / 256 ^ (32 - last) * 256 ^ (32 - last) + cut * 256 ^ (31 - last)

-- The order of Sort and of less.
abbrev pub element_less : Element → Element → Bool
element_less a b = ltb a.label b.label || ((a.label == b.label) && ltb a.len b.len)
