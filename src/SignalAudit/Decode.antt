-- ===== src/SignalAudit/Decode.antt =====
-- DecodeUpdate and decodeProof of internal/signalaudit/update.go. A `seen` flag and the slot that it
-- guards are one Option.
use kt_witness.Common.{
  ℕ, ◌-◌, ◌%◌, ◌^◌, Bool, true, false, ◌||◌, ◌&&◌, not, List, [], ◌∷◌, ◌++◌, length, ltb, ◌==◌,
  if◌then◌else◌, Option, none, some,
}
use kt_witness.PbWire.{Field, fields}
use kt_witness.PbWire
use kt_witness.Signal.Node.{Value}
use kt_witness.SignalAudit.Update.{
  Update, Result, stuck, malformed, ok, and_then, bad_message, repeated, wrong_type, wrong_size,
  missing, bad_bool, two_proofs, no_proof, long_copath, wide_counter, validate, index_size,
  seed_size, commitment_size, hash_size, max_copath, new_tree, different_key, same_key, no_update,
}

-- pbwire.Fields, its error wrapped.
abbrev pub read_fields : List ℕ → Result (List Field)
read_fields b = elim (fields b) [
  | PbWire.stuck ↦ stuck
  | PbWire.err _ ↦ malformed bad_message
  | PbWire.ok fs ↦ ok fs
]

-- What the loop of DecodeUpdate collects.
pub record Slots : Type 0 where
  pub real : Option Bool
  pub index : Option (List ℕ)
  pub seed : Option (List ℕ)
  pub commitment : Option (List ℕ)
  pub proof : Option (List ℕ)

abbrev pub no_slots : Slots
no_slots = record { real = none; index = none; seed = none; commitment = none; proof = none }

-- A bytes field of DecodeUpdate, with its number.
abbrev pub bytes_slot : ℕ → Option (List ℕ) → Field → Result (List ℕ)
bytes_slot num (some old) f = malformed (repeated num)
bytes_slot num none f = if f.wire == 2 then ok f.bytes else malformed (wrong_type num)

abbrev pub real_slot : Option Bool → Field → Result Bool
real_slot (some old) f = malformed (repeated 1)
real_slot none f =
    if f.wire == 0
    then (if ltb 1 f.varint then malformed bad_bool else ok (f.varint == 1))
    else malformed (wrong_type 1)

unfoldable pub take_slot : Slots → Field → Result Slots
take_slot s f =
    if ltb f.num 1 || ltb 5 f.num
    then ok s
    else if f.num == 1
    then and_then (real_slot s.real f) (λ v. ok (record s { real = some v }))
    else if f.num == 2
    then and_then (bytes_slot 2 s.index f) (λ v. ok (record s { index = some v }))
    else if f.num == 3
    then and_then (bytes_slot 3 s.seed f) (λ v. ok (record s { seed = some v }))
    else if f.num == 4
    then and_then (bytes_slot 4 s.commitment f) (λ v. ok (record s { commitment = some v }))
    else and_then (bytes_slot 5 s.proof f) (λ v. ok (record s { proof = some v }))

unfoldable pub take_slots : Slots → List Field → Result Slots
take_slots s [] = ok s
take_slots s (f ∷ fs) = and_then (take_slot s f) (λ t. take_slots t fs)

-- An absent field is an empty one.
abbrev pub bytes_of : Option (List ℕ) → List ℕ
bytes_of none = []
bytes_of (some b) = b

abbrev pub bool_of : Option Bool → Bool
bool_of none = false
bool_of (some b) = b

-- A field number is cut to a uint8 to be a ProofKind.
abbrev pub is_variant : Field → Bool
is_variant f =
    (f.num % 256 == new_tree) || (f.num % 256 == different_key) || (f.num % 256 == same_key)

-- The first loop of decodeProof: the variant and its body.
unfoldable pub take_variant : ℕ × List ℕ → List Field → Result (ℕ × List ℕ)
take_variant found [] = ok found
take_variant (kind, body) (f ∷ fs) =
    let rest = take_variant (if is_variant f then (f.num % 256, f.bytes) else (kind, body)) fs in
    if is_variant f && not (kind == 0)
    then malformed two_proofs
    else if is_variant f && not (f.wire == 2)
    then malformed (wrong_type (f.num % 256))
    else rest

-- What the second loop of decodeProof collects.
pub record Body : Type 0 where
  pub copath : List Value
  pub old_seed : Option (List ℕ)
  pub counter : Option ℕ
  pub position : Option ℕ

abbrev pub no_body : Body
no_body = record { copath = []; old_seed = none; counter = none; position = none }

abbrev pub is_some {ℓ} : {A : Type ℓ} → Option A → Bool
is_some none = false
is_some (some a) = true

abbrev pub take_copath : Body → Field → Result Body
take_copath b f =
    if not (f.wire == 2)
    then malformed (wrong_type 1)
    else if not (length f.bytes == hash_size)
    then malformed (wrong_size 1)
    else if length b.copath == max_copath
    then malformed long_copath
    else ok (record b { copath = b.copath ++ f.bytes ∷ [] })

abbrev pub take_old_seed : Body → Field → Result Body
take_old_seed b f =
    if is_some b.old_seed
    then malformed (repeated 2)
    else if not (f.wire == 2) || not (length f.bytes == seed_size)
    then malformed (wrong_size 2)
    else ok (record b { old_seed = some f.bytes })

abbrev pub take_counter : Body → Field → Result Body
take_counter b f =
    if is_some b.counter
    then malformed (repeated 2)
    else if not (f.wire == 0)
    then malformed (wrong_type 2)
    else if ltb (2 ^ 32 - 1) f.varint
    then malformed wide_counter
    else ok (record b { counter = some f.varint })

abbrev pub take_position : Body → Field → Result Body
take_position b f =
    if is_some b.position
    then malformed (repeated 3)
    else if not (f.wire == 0)
    then malformed (wrong_type 3)
    else ok (record b { position = some f.varint })

unfoldable pub take_part : ℕ → Body → Field → Result Body
take_part kind b f =
    if f.num == 1
    then take_copath b f
    else if (f.num == 2) && (kind == different_key)
    then take_old_seed b f
    else if (f.num == 2) && (kind == same_key)
    then take_counter b f
    else if (f.num == 3) && (kind == same_key)
    then take_position b f
    else ok b

unfoldable pub take_parts : ℕ → Body → List Field → Result Body
take_parts kind b [] = ok b
take_parts kind b (f ∷ fs) = and_then (take_part kind b f) (λ c. take_parts kind c fs)

abbrev pub number_of : Option ℕ → ℕ
number_of none = 0
number_of (some n) = n

abbrev pub seed_of : Option (List ℕ) → List ℕ
seed_of none = no_update.old_seed
seed_of (some b) = b

-- The proof's fields put into the update.
abbrev pub with_body : Update → ℕ → Body → Update
with_body u kind b = record u {
  proof = kind;
  copath = b.copath;
  old_seed = seed_of b.old_seed;
  counter = number_of b.counter;
  position = number_of b.position;
}

unfoldable pub decode_body : Update → ℕ → List ℕ → Result Update
decode_body u kind bytes = and_then (read_fields bytes) (λ fs.
    if kind == new_tree
    then ok (record u { proof = kind })
    else and_then (take_parts kind no_body fs) (λ b.
      if (kind == different_key) && not (is_some b.old_seed)
      then malformed (missing 2)
      else ok (with_body u kind b)))

unfoldable pub decode_proof : List ℕ → Update → Result Update
decode_proof bytes u = and_then (read_fields bytes) (λ fs.
    and_then (take_variant (0, []) fs)
      (λ v. if v.0 == 0 then malformed no_proof else decode_body u v.0 v.1))

-- The size checks, and what follows them.
unfoldable pub from_slots : Slots → Result Update
from_slots s =
    if not (length (bytes_of s.index) == index_size)
    then malformed (wrong_size 2)
    else if not (length (bytes_of s.seed) == seed_size)
    then malformed (wrong_size 3)
    else if not (length (bytes_of s.commitment) == commitment_size)
    then malformed (wrong_size 4)
    else if not (is_some s.proof)
    then malformed (missing 5)
    else and_then
        (decode_proof (bytes_of s.proof) (record no_update {
          real = bool_of s.real;
          index = bytes_of s.index;
          seed = bytes_of s.seed;
          commitment = bytes_of s.commitment;
        }))
        (λ u. and_then (validate u) (λ _. ok u))

unfoldable pub decode_update : List ℕ → Result Update
decode_update b = and_then (read_fields b) (λ fs. and_then (take_slots no_slots fs) from_slots)
