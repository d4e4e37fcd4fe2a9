-- ===== src/SignalAudit/Total.antt =====
-- DecodeUpdate answers on every input.
use kt_witness.Common.{
  ℕ, ◌%◌, ◌≢◌, refl, List, [], ◌∷◌, length, ◌==◌, arith, true, false, ◌&&◌, not, if◌then◌else◌,
  Bool, Option, none, some,
}
use kt_witness.PbWire.{Field, fields}
use kt_witness.PbWire
use kt_witness.PbWire.RoundTrip.{fields-ne-stuck}
use kt_witness.SignalAudit.Update.{
  no_update, index_size, seed_size, commitment_size, wrong_size, missing, bad_message, two_proofs,
  wrong_type, Update, Malformed, Result, stuck, malformed, ok, and_then, validate,
}
use kt_witness.SignalAudit.Decode.{
  read_fields, Slots, take_slot, take_slots, take_variant, Body, take_part, take_parts, decode_body,
  decode_proof, from_slots, decode_update, is_variant, bytes_slot, real_slot, bytes_of, bool_of,
  is_some,
}

if-Answers :
    {A : Type 0} (test : Bool) (x y : Result A)
    → x ≢ stuck
    → y ≢ stuck
    → (if test then x else y) ≢ stuck
if-Answers true x y h k = h
if-Answers false x y h k = k

malformed-Answers : {A : Type 0} (why : Malformed) → ◌≢◌ {A = Result A} (malformed why) stuck
malformed-Answers why e = cc

ok-Answers : {A : Type 0} (a : A) → ok a ≢ stuck
ok-Answers a e = cc

and_then-Answers :
    {A B : Type 0} (one : Result A) (next : A → Result B)
    → one ≢ stuck
    → ((a : A) → next a ≢ stuck)
    → and_then one next ≢ stuck
and_then-Answers stuck next h k = absurd (h refl)
and_then-Answers (malformed why) next h k = λ e. cc
and_then-Answers (ok a) next h k = k a

read_fields-Answers : (b : List ℕ) → read_fields b ≢ stuck
read_fields-Answers b = wrapped (fields b) (fields-ne-stuck b)
  where
    wrapped :
        (r : PbWire.Result (List Field))
        → r ≢ PbWire.stuck
        → ◌≢◌ {A = Result (List Field)}
            (elim r [
              | PbWire.stuck ↦ stuck
              | PbWire.err _ ↦ malformed bad_message
              | PbWire.ok fs ↦ ok fs
            ])
            stuck
    wrapped PbWire.stuck h = absurd (h refl)
    wrapped (PbWire.err x) h = malformed-Answers bad_message
    wrapped (PbWire.ok fs) h = ok-Answers fs

bytes_slot-Answers : (num : ℕ) (old : Option (List ℕ)) (f : Field) → bytes_slot num old f ≢ stuck
bytes_slot-Answers num (some old) f = malformed-Answers _
bytes_slot-Answers num none f = if-Answers _ _ _ (ok-Answers _) (malformed-Answers _)

real_slot-Answers : (old : Option Bool) (f : Field) → real_slot old f ≢ stuck
real_slot-Answers (some old) f = malformed-Answers _
real_slot-Answers none f =
    if-Answers _ _ _ (if-Answers _ _ _ (malformed-Answers _) (ok-Answers _)) (malformed-Answers _)

take_slot-Answers : (s : Slots) (f : Field) → take_slot s f ≢ stuck
unfolding take_slot
take_slot-Answers s f = if-Answers _ _ _ (ok-Answers s) (
    if-Answers _ _ _
      (and_then-Answers (real_slot s.real f) _ (real_slot-Answers s.real f) (λ v. ok-Answers _))
      (if-Answers _ _ _
        (and_then-Answers (bytes_slot 2 s.index f) _ (bytes_slot-Answers 2 s.index f)
          (λ v. ok-Answers _))
        (if-Answers _ _ _
          (and_then-Answers (bytes_slot 3 s.seed f) _ (bytes_slot-Answers 3 s.seed f)
            (λ v. ok-Answers _))
          (if-Answers _ _ _
            (and_then-Answers (bytes_slot 4 s.commitment f) _ (bytes_slot-Answers 4 s.commitment f)
              (λ v. ok-Answers _))
            (and_then-Answers (bytes_slot 5 s.proof f) _ (bytes_slot-Answers 5 s.proof f)
              (λ v. ok-Answers _))))))

take_slots-Answers : (s : Slots) (fs : List Field) → take_slots s fs ≢ stuck
unfolding take_slots
take_slots-Answers s [] = λ e. cc
take_slots-Answers s (f ∷ fs) =
    and_then-Answers (take_slot s f) _ (take_slot-Answers s f) (λ t. take_slots-Answers t fs)

take_variant-Answers : (found : ℕ × List ℕ) (fs : List Field) → take_variant found fs ≢ stuck
unfolding take_variant
take_variant-Answers (kind, body) [] = ok-Answers _
take_variant-Answers (kind, body) (f ∷ fs) =
    if-Answers (is_variant f && not (kind == 0)) _ _ (malformed-Answers two_proofs) (
      if-Answers (is_variant f && not (f.wire == 2)) _ _
        (malformed-Answers (wrong_type (f.num % 256)))
        (take_variant-Answers (if is_variant f then (f.num % 256, f.bytes) else (kind, body)) fs))

take_part-Answers : (kind : ℕ) (b : Body) (f : Field) → take_part kind b f ≢ stuck
unfolding take_part
take_part-Answers kind b f e = ground arith

take_parts-Answers : (kind : ℕ) (b : Body) (fs : List Field) → take_parts kind b fs ≢ stuck
unfolding take_parts
take_parts-Answers kind b [] = λ e. cc
take_parts-Answers kind b (f ∷ fs) =
    and_then-Answers (take_part kind b f) _ (take_part-Answers kind b f)
      (λ c. take_parts-Answers kind c fs)

decode_body-Answers : (u : Update) (kind : ℕ) (bytes : List ℕ) → decode_body u kind bytes ≢ stuck
unfolding decode_body
decode_body-Answers u kind bytes =
    and_then-Answers (read_fields bytes) _ (read_fields-Answers bytes) (λ fs.
      if-Answers _ _ _ (ok-Answers _) (
        and_then-Answers (take_parts kind _ fs) _ (take_parts-Answers kind _ fs)
          (λ b. if-Answers _ _ _ (malformed-Answers _) (ok-Answers _))))

decode_proof-Answers : (bytes : List ℕ) (u : Update) → decode_proof bytes u ≢ stuck
unfolding decode_proof
decode_proof-Answers bytes u =
    and_then-Answers (read_fields bytes) _ (read_fields-Answers bytes) (λ fs.
      and_then-Answers (take_variant (0, []) fs) _ (take_variant-Answers (0, []) fs)
        (λ v. if-Answers _ _ _ (malformed-Answers _) (decode_body-Answers u v.0 v.1)))

validate-Answers : (u : Update) → validate u ≢ stuck
unfolding validate
validate-Answers u e = ground arith

from_slots-Answers : (s : Slots) → from_slots s ≢ stuck
unfolding from_slots
from_slots-Answers s =
    let body = bytes_of s.proof in
    let known = record no_update {
      real = bool_of s.real;
      index = bytes_of s.index;
      seed = bytes_of s.seed;
      commitment = bytes_of s.commitment;
    } in
    if-Answers (not (length (bytes_of s.index) == index_size)) _ _
      (malformed-Answers (wrong_size 2))
      (if-Answers (not (length (bytes_of s.seed) == seed_size)) _ _
        (malformed-Answers (wrong_size 3))
        (if-Answers (not (length (bytes_of s.commitment) == commitment_size)) _ _
          (malformed-Answers (wrong_size 4))
          (if-Answers (not (is_some s.proof)) _ _ (malformed-Answers (missing 5)) (
            and_then-Answers (decode_proof body known) _ (decode_proof-Answers body known)
              (λ u. and_then-Answers (validate u) _ (validate-Answers u) (λ _. ok-Answers u))))))

-- DecodeUpdate ends with an update or a MalformedError, whatever the bytes.
pub decode_update-ne-stuck : (b : List ℕ) → decode_update b ≢ stuck
unfolding decode_update
decode_update-ne-stuck b =
    and_then-Answers (read_fields b) _ (read_fields-Answers b)
      (λ fs. and_then-Answers (take_slots _ fs) _ (take_slots-Answers _ fs) from_slots-Answers)
