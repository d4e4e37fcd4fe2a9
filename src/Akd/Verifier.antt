-- ===== src/Akd/Verifier.antt =====
-- internal/audit/goverify.go: the verdict of GoVerifier.VerifyCached on a proof, with ParseDigest of
-- internal/akdtree/verify.go. The proof's bytes are an input, none where it was not read or fetched; a
-- text is the list of its bytes. The times and sizes that are reported are left out.
use kt_witness.Common.{
  ℕ, zero, suc, ◌+◌, ◌-◌, ◌*◌, ◌<◌, ◌≡◌, ◌≢◌, refl, ap, sym, inl, inr, arith, Bool, true, false,
  Bool-cases, ◌&&◌, not, List, [], ◌∷◌, length, Option, none, some, leb, ◌==◌, if◌then◌else◌, All,
}
use kt_witness.Signal.Node.{Value}
use kt_witness.Signal.Consistency.{same_value, same_value-ne}
use kt_witness.Akd.Label.{Element}
use kt_witness.Akd.Tree as Trees
use kt_witness.Akd.Tree.{Attempt, dropped, unsorted, verify_append_only, roots, then_build}
use kt_witness.Akd.Decode.{Decoded, stuck, err, ok, decode}
use kt_witness.Akd.Walk.{Yields}
use kt_witness.Akd.Decoded.{BothFit, decode-Yields}
use kt_witness.Akd.AppendOnly.{Extends, verify_append_only-Extends}
use kt_witness.Akd.Verdict.{verify_append_only_ends}

abbrev hex_digit : ℕ → Option ℕ
hex_digit c =
    if leb 48 c && leb c 57
    then some (c - 48)
    else if leb 97 c && leb c 102
    then some (c - 87)
    else if leb 65 c && leb c 70
    then some (c - 55)
    else none

abbrev hex_byte : Option ℕ → Option ℕ → Option (List ℕ) → Option (List ℕ)
hex_byte none low rest = none
hex_byte (some h) none rest = none
hex_byte (some h) (some l) none = none
hex_byte (some h) (some l) (some rest) = some ((h * 16 + l) ∷ rest)

unfoldable pub hex_bytes : List ℕ → Option (List ℕ)
hex_bytes [] = some []
hex_bytes (c ∷ []) = none
hex_bytes (c ∷ d ∷ rest) = hex_byte (hex_digit c) (hex_digit d) (hex_bytes rest)

unfoldable pub parse_digest : List ℕ → Option Value
unfolding hex_bytes
parse_digest s = if not (length s == 64) then none else hex_bytes s

-- The kinds of a Result, and `looping`, which is none: a loop ran out of rounds.
pub data Judgement : Type 0 where
  looping passed not_fetched not_decoded not_verified : Judgement

abbrev judge_verdict : Attempt Bool → Judgement
judge_verdict Trees.stuck = looping
judge_verdict dropped = not_decoded
judge_verdict unsorted = not_decoded
judge_verdict (Trees.ok b) = if not b then not_verified else passed

-- What the elements of a proof and two published roots are.
pub record IsProof (bytes prev_root curr_root : List ℕ) (inserted unchanged : List Element)
    (prev curr : Value) : Type 0 where
  pub decoded : decode bytes ≡ ok (inserted, unchanged)
  pub prev_read : parse_digest prev_root ≡ some prev
  pub curr_read : parse_digest curr_root ≡ some curr
  pub fits : BothFit (inserted, unchanged)

module _ (blake3 : List ℕ → Value) where
  abbrev judge_roots : Option Value → Option Value → List Element → List Element → ℕ → Judgement
  judge_roots none curr unchanged inserted epoch = not_fetched
  judge_roots (some prev) none unchanged inserted epoch = not_fetched
  judge_roots (some prev) (some curr) unchanged inserted epoch =
      judge_verdict (verify_append_only blake3 unchanged inserted prev curr epoch)

  abbrev judge_proof :
      Option Value → Option Value → ℕ → Decoded (List Element × List Element) → Judgement
  judge_proof prev curr epoch stuck = looping
  judge_proof prev curr epoch (err why) = not_decoded
  judge_proof prev curr epoch (ok sets) = judge_roots prev curr sets.1 sets.0 epoch

  unfoldable pub verify_cached : Option (List ℕ) → List ℕ → List ℕ → ℕ → Judgement
  unfolding decode parse_digest
  verify_cached none prev_root curr_root epoch = not_fetched
  verify_cached (some bytes) prev_root curr_root epoch =
      judge_proof (parse_digest prev_root) (parse_digest curr_root) epoch (decode bytes)

  judge_proof-cases :
      (prev curr : Option Value) (epoch : ℕ) (d : Decoded (List Element × List Element))
      (j : Judgement)
      → Yields BothFit d
      → judge_proof prev curr epoch d ≡ j
      → j ≢ not_fetched
      → j ≢ not_decoded
      → (sets : List Element × List Element) × (p : Value) × (c : Value) × (d ≡ ok sets)
        × (prev ≡ some p)
        × (curr ≡ some c)
        × BothFit sets
        × (judge_verdict (verify_append_only blake3 sets.1 sets.0 p c epoch) ≡ j)
  judge_proof-cases prev curr epoch stuck j y h a b = absurd (cc y)
  judge_proof-cases prev curr epoch (err why) j y h a b = absurd (b (sym h))
  judge_proof-cases none curr epoch (ok sets) j y h a b = absurd (a (sym h))
  judge_proof-cases (some p) none epoch (ok sets) j y h a b = absurd (a (sym h))
  judge_proof-cases (some p) (some c) epoch (ok sets) j y h a b =
      (sets, p, c, refl, refl, refl, y, h)

  judge_verdict_passed : (o : Attempt Bool) → judge_verdict o ≡ passed → o ≡ Trees.ok true
  judge_verdict_passed Trees.stuck h = absurd cc
  judge_verdict_passed dropped h = absurd cc
  judge_verdict_passed unsorted h = absurd cc
  judge_verdict_passed (Trees.ok true) h = refl
  judge_verdict_passed (Trees.ok false) h = absurd cc

  judge_verdict_accused : (o : Attempt Bool) → judge_verdict o ≡ not_verified → o ≡ Trees.ok false
  judge_verdict_accused Trees.stuck h = absurd cc
  judge_verdict_accused dropped h = absurd cc
  judge_verdict_accused unsorted h = absurd cc
  judge_verdict_accused (Trees.ok true) h = absurd cc
  judge_verdict_accused (Trees.ok false) h = refl

  judge_verdict_looping : (o : Attempt Bool) → judge_verdict o ≡ looping → o ≡ Trees.stuck
  judge_verdict_looping Trees.stuck h = refl
  judge_verdict_looping dropped h = absurd cc
  judge_verdict_looping unsorted h = absurd cc
  judge_verdict_looping (Trees.ok true) h = absurd cc
  judge_verdict_looping (Trees.ok false) h = absurd cc

  -- A proof that VerifyCached passes decodes to two sets of elements, and stands for two tries with the
  -- published roots as their hashes: the first over the unchanged elements, the second over these and
  -- the inserted ones with values committed to the epoch.
  pub verify_cached-Extends :
      (bytes prev_root curr_root : List ℕ) (epoch : ℕ)
      → All (λ b. b < 256) bytes
      → verify_cached (some bytes) prev_root curr_root epoch ≡ passed
      → (inserted unchanged : List Element) × (prev curr : Value) × IsProof bytes prev_root
          curr_root inserted unchanged prev curr
        × Extends blake3 unchanged inserted prev curr epoch
  unfolding verify_cached
  verify_cached-Extends bytes prev_root curr_root epoch all h =
      let (sets, p, c, d, e, f, fit, v) =
        judge_proof-cases (parse_digest prev_root) (parse_digest curr_root) epoch (decode bytes)
          passed (decode-Yields bytes all) h (λ k. cc k) (λ k. cc k) in
      (
        sets.0,
        sets.1,
        p,
        c,
        record { decoded = d; prev_read = e; curr_read = f; fits = fit },
        verify_append_only-Extends blake3 sets.1 sets.0 p c epoch fit.1 fit.0
            (judge_verdict_passed _ v),
      )

  two : ¬ (zero ≡ suc zero)
  two h = omega (arith, h)

  -- A pair of roots that VerifyAppendOnly refuses is not the pair that Roots rebuilds.
  refused_differs :
      (unchanged inserted : List Element) (prev curr : Value) (epoch : ℕ)
      → verify_append_only blake3 unchanged inserted prev curr epoch ≡ Trees.ok false
      → (r : Value × Value) × (roots blake3 unchanged inserted epoch ≡ Trees.ok r)
        × (r ≢ (prev, curr))
  unfolding verify_append_only
  refused_differs unchanged inserted prev curr epoch h =
      differs (roots blake3 unchanged inserted epoch) h
    where
      apart :
          (r : Value × Value)
          → r.0 ≡ prev
          → r.1 ≡ curr
          → (same_value r.0 prev && same_value r.1 curr) ≡ false
          → zero ≡ suc zero
      apart r a b one = elim (Bool-cases (same_value r.0 prev)) [
        | inl e ↦
            let other : same_value r.1 curr ≡ false = ground (arith, one, e) in
            absurd (same_value-ne r.1 curr other b)
        | inr e ↦ absurd (same_value-ne r.0 prev e a)
      ]

      differs :
          (o : Attempt (Value × Value))
          → then_build {B = Bool} o (λ r. Trees.ok (same_value r.0 prev && same_value r.1 curr))
            ≡ Trees.ok false
          → (r : Value × Value) × (o ≡ Trees.ok r) × (r ≢ (prev, curr))
      differs Trees.stuck h = absurd cc
      differs dropped h = absurd cc
      differs unsorted h = absurd cc
      differs (Trees.ok r) h =
          let one : (same_value r.0 prev && same_value r.1 curr) ≡ false = cc h in
          (r, refl, λ e. two (apart r (ap (λ t. t.0) e) (ap (λ t. t.1) e) one))

  -- VerifyCached accuses a log only where the proof decodes, both published roots are digests, and the
  -- roots that Roots rebuilds of the proof are others.
  pub accused_differs :
      (bytes prev_root curr_root : List ℕ) (epoch : ℕ)
      → All (λ b. b < 256) bytes
      → verify_cached (some bytes) prev_root curr_root epoch ≡ not_verified
      → (inserted unchanged : List Element) × (prev curr : Value) × IsProof bytes prev_root
          curr_root inserted unchanged prev curr
        × ((r : Value × Value) × (roots blake3 unchanged inserted epoch ≡ Trees.ok r)
            × (r ≢ (prev, curr)))
  unfolding verify_cached
  accused_differs bytes prev_root curr_root epoch all h =
      let (sets, p, c, d, e, f, fit, v) =
        judge_proof-cases (parse_digest prev_root) (parse_digest curr_root) epoch (decode bytes)
          not_verified (decode-Yields bytes all) h (λ k. cc k) (λ k. cc k) in
      (
        sets.0,
        sets.1,
        p,
        c,
        record { decoded = d; prev_read = e; curr_read = f; fits = fit },
        refused_differs sets.1 sets.0 p c epoch (judge_verdict_accused _ v),
      )

  -- VerifyCached comes to an end on all bytes.
  pub verify_cached_ends :
      (bytes prev_root curr_root : List ℕ) (epoch : ℕ)
      → All (λ b. b < 256) bytes
      → verify_cached (some bytes) prev_root curr_root epoch ≢ looping
  unfolding verify_cached
  verify_cached_ends bytes prev_root curr_root epoch all h =
      let (sets, p, c, d, e, f, fit, v) =
        judge_proof-cases (parse_digest prev_root) (parse_digest curr_root) epoch (decode bytes)
          looping (decode-Yields bytes all) h (λ k. cc k) (λ k. cc k) in
      verify_append_only_ends blake3 sets.1 sets.0 p c epoch fit.1 fit.0 (judge_verdict_looping _ v)
