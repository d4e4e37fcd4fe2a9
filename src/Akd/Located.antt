-- ===== src/Akd/Located.antt =====
-- PayloadOffset of internal/akdtree/ranges.go beside the payload bytes of a field.
use mathlib.Core.List.{append_assoc, append-nil}
use kt_witness.Common.{
  ℕ, zero, suc, ◌+◌, ◌-◌, ◌≤◌, ◌<◌, ◌≡◌, refl, ap, sym, subst, ◌∙◌, inl, inr, arith, true, false,
  Bool-cases, ◌&&◌, List, [], ◌++◌, length, length-append, get_elem?, some, ltb, leb, ◌==◌,
}
use kt_witness.Akd.Ranges.{
  Record, Framed, partial, malformed, framed, next_record, Ranged, stuck, refused, ok, bind,
  visit_framed, each_record, Payload, count_body, label_visit, element_visit, proof_visit,
  payload_offset,
}
use kt_witness.Akd.Within.{Within, next_record-Within}
use kt_witness.Akd.Payload.{
  slice, with_framed, gathered, label_payload, element_payload, field_payload, payload_of,
  get_elem-left, get_elem-right, length-slice, get_elem-slice,
}

-- The total is the number of payload bytes, and the n-th of them is found exactly when there is one: the
-- byte of the data at the offset is that byte.
pub record IsLocated (bytes : List ℕ) (n : ℕ) (p : Payload) (payload : List ℕ) : Type 0 where
  pub counted : p.total ≡ length payload
  pub present :
      p.found ≡ true
      → (n < length payload)
        × (p.offset < length bytes)
        × (get_elem? bytes p.offset ≡ get_elem? payload n)
  pub absent : p.found ≡ false → length payload ≤ n

-- Both end, with an error or with a place in the payload.
abbrev pub Locates : List ℕ → ℕ → Ranged Payload → Ranged (List ℕ) → Type 0
Locates bytes n stuck d = zero ≡ suc zero
Locates bytes n refused stuck = zero ≡ suc zero
Locates bytes n refused refused = Unit
Locates bytes n refused (ok l) = zero ≡ suc zero
Locates bytes n (ok p) stuck = zero ≡ suc zero
Locates bytes n (ok p) refused = zero ≡ suc zero
Locates bytes n (ok p) (ok l) = IsLocated bytes n p l

-- The payload after a part of it.
abbrev after : List ℕ → Ranged (List ℕ) → Ranged (List ℕ)
after l d = bind d (λ m. ok (l ++ m))

module _ (bytes : List ℕ) (n : ℕ) where
  body-IsLocated :
      (r : Record) (p : Payload) (l : List ℕ)
      → r.body_start ≤ r.end
      → r.end ≤ length bytes
      → IsLocated bytes n p l
      → IsLocated bytes n (count_body (some n) r.body_start r.end p) (l ++ slice bytes r)
  body-IsLocated r p l low high h =
      let size = length-slice bytes r low high in
      let whole : length (l ++ slice bytes r) ≡ p.total + (r.end - r.body_start) =
        omega (arith, length-append l (slice bytes r), size, h.counted) in
      elim (Bool-cases p.found) [
        | inl seen ↦
            let (before, inside, same) = h.present seen in
            simp seen (record {
              counted = sym whole;
              present = λ e. (
                omega (arith, before, whole, h.counted),
                inside,
                same ∙ sym (get_elem-left l (slice bytes r) n before),
              );
              absent = λ e. absurd (cc e);
            })
        | inr not_seen ↦
            let before = h.absent not_seen in
            elim (Bool-cases (leb p.total n && ltb n (p.total + (r.end - r.body_start)))) [
              | inl here ↦
                  let inside : n < p.total + (r.end - r.body_start) = ground (arith, here) in
                  let i = n - length l in
                  let place : length l + i ≡ n = omega (arith, before) in
                  let small : i < r.end - r.body_start = omega (arith, inside, before, h.counted) in
                  let offset : r.body_start + n - p.total ≡ r.body_start + i =
                    omega (arith, before, h.counted) in
                  simp (not_seen, here)
                    (record {
                      counted = sym whole;
                      present = λ e. (
                        omega (arith, inside, whole),
                        omega (arith, offset, small, low, high),
                        ap (λ k. get_elem? bytes k) offset
                            ∙ sym (get_elem-slice bytes r i small)
                            ∙ sym (get_elem-right l (slice bytes r) i)
                            ∙ ap (λ k. get_elem? (l ++ slice bytes r) k) place,
                      );
                      absent = λ e. absurd (cc e);
                    })
              | inr past ↦
                  let beyond : p.total + (r.end - r.body_start) ≤ n =
                    ground (arith, past, before, h.counted) in
                  simp (not_seen, past)
                    (record {
                      counted = sym whole;
                      present = λ e. absurd (cc e);
                      absent = λ e. omega (arith, beyond, whole);
                    })
            ]
      ]

  -- A visit and the payload of the record keep step.
  abbrev KeepsStep : (Record → Payload → Ranged Payload) → (Record → Ranged (List ℕ)) → Type 0
  KeepsStep visit f =
      (at : ℕ) (r : Record) (p : Payload) (l : List ℕ)
      → Within bytes at (framed r)
      → IsLocated bytes n p l
      → Locates bytes n (visit r p) (after l (f r))

  regroup :
      (d : Ranged Payload) (l a : List ℕ) (g : Ranged (List ℕ))
      → Locates bytes n d (after (l ++ a) g)
      → Locates bytes n d (after l (bind g (λ b. ok (a ++ b))))
  regroup d l a stuck h = h
  regroup d l a refused h = h
  regroup d l a (ok b) h = subst (λ m. Locates bytes n d (ok m)) (append_assoc l a b) h

  joined :
      (d : Ranged Payload) (e : Ranged (List ℕ)) (l : List ℕ) (rest : Payload → Ranged Payload)
      (g : Ranged (List ℕ))
      → Locates bytes n d (after l e)
      → ((q : Payload) (m : List ℕ) → IsLocated bytes n q m → Locates bytes n (rest q) (after m g))
      → Locates bytes n (bind d rest) (after l (bind e (λ a. bind g (λ b. ok (a ++ b)))))
  joined stuck e l rest g h k = absurd (omega (arith, h))
  joined refused stuck l rest g h k = h
  joined refused refused l rest g h k = tt
  joined refused (ok a) l rest g h k = absurd (omega (arith, h))
  joined (ok q) stuck l rest g h k = absurd (omega (arith, h))
  joined (ok q) refused l rest g h k = absurd (omega (arith, h))
  joined (ok q) (ok a) l rest g h k = regroup (rest q) l a g (k q (l ++ a) h)

  loop-Locates :
      (visit : Record → Payload → Ranged Payload) (f : Record → Ranged (List ℕ)) (stop : ℕ)
      → KeepsStep visit f
      → (rounds pos : ℕ) (p : Payload) (l : List ℕ) → length bytes < pos + rounds
      → pos ≤ length bytes
      → IsLocated bytes n p l
      → Locates bytes n
          (each_record rounds bytes stop visit pos p)
          (after l (gathered rounds bytes stop f pos))
  unfolding each_record gathered
  loop-Locates visit f stop keeps zero pos p l h k i = absurd (omega arith)
  loop-Locates visit f stop keeps (suc rounds) pos p l h k i = elim (Bool-cases (ltb pos stop)) [
    | inr done ↦ simp done (subst (IsLocated bytes n p) (sym (append-nil l)) i)
    | inl more ↦ simp more (
        next (next_record bytes pos) (next_record-Within bytes pos)
          (λ at q m. loop-Locates visit f stop keeps rounds at q m))
  ]
    where
      next :
          (g : Framed)
          → Within bytes pos g
          → ((at : ℕ) (q : Payload) (m : List ℕ)
              → length bytes < at + rounds
              → at ≤ length bytes
              → IsLocated bytes n q m
              → Locates bytes n
                  (each_record rounds bytes stop visit at q)
                  (after m (gathered rounds bytes stop f at)))
          → Locates bytes n
              (visit_framed
                (λ r. bind (visit r p) (λ t. each_record rounds bytes stop visit r.end t))
                g)
              (after l (
                with_framed
                  (λ r.
                    bind (f r) (λ a. bind (gathered rounds bytes stop f r.end) (λ b. ok (a ++ b))))
                  g))
      next partial w ih = tt
      next malformed w ih = tt
      next (framed r) w ih =
          joined (visit r p) (f r) l _ _ (keeps pos r p l w i)
            (λ q m. ih r.end q m (omega (arith, w, h)) (omega (arith, w)))

  skipped : (p : Payload) (l : List ℕ) → IsLocated bytes n p l → IsLocated bytes n p (l ++ [])
  skipped p l i = subst (IsLocated bytes n p) (sym (append-nil l)) i

  label_visit-Locates : KeepsStep (label_visit (some n)) (label_payload bytes)
  label_visit-Locates at r p l w i = elim (Bool-cases (r.wire == 2)) [
    | inr other ↦ elim (Bool-cases (r.field == 1)) [
      | inl val ↦ simp (other, val) (skipped p l i)
      | inr neither ↦ simp (other, neither) (skipped p l i)
    ]
    | inl delimited ↦ elim (Bool-cases (r.field == 1)) [
      | inr other ↦ simp (delimited, other) (skipped p l i)
      | inl val ↦
          simp (delimited, val) (body-IsLocated r p l (omega (arith, w)) (omega (arith, w)) i)
    ]
  ]

  element_visit-Locates : KeepsStep (element_visit bytes (some n)) (element_payload bytes)
  element_visit-Locates at r p l w i = elim (Bool-cases (r.wire == 2)) [
    | inr other ↦ simp other (skipped p l i)
    | inl delimited ↦ elim (Bool-cases (r.field == 1)) [
      | inl label ↦
          simp (delimited, label)
            (loop-Locates (label_visit (some n)) (label_payload bytes) r.end label_visit-Locates
              (suc (length bytes)) r.body_start p l (omega arith) (omega (arith, w)) i)
      | inr other ↦ elim (Bool-cases (r.field == 2)) [
        | inl value ↦
            simp (delimited, other, value)
              (body-IsLocated r p l (omega (arith, w)) (omega (arith, w)) i)
        | inr neither ↦ simp (delimited, other, neither) (skipped p l i)
      ]
    ]
  ]

  proof_visit-Locates :
      (field : ℕ) → KeepsStep (proof_visit bytes field (some n)) (field_payload bytes field)
  proof_visit-Locates field at r p l w i = elim (Bool-cases (r.wire == 2)) [
    | inr other ↦ elim (Bool-cases (r.field == field)) [
      | inl same ↦ simp (other, same) (skipped p l i)
      | inr neither ↦ simp (other, neither) (skipped p l i)
    ]
    | inl delimited ↦ elim (Bool-cases (r.field == field)) [
      | inr other ↦ simp (delimited, other) (skipped p l i)
      | inl same ↦
          simp (delimited, same)
            (loop-Locates (element_visit bytes (some n)) (element_payload bytes) r.end
              element_visit-Locates (suc (length bytes)) r.body_start p l (omega arith)
              (omega (arith, w)) i)
    ]
  ]

-- PayloadOffset comes to an end. It reports an error exactly where the payload bytes of the field cannot
-- be read, and else the number of them; it finds the n-th exactly when there are more than n, and the
-- byte of the data at the offset that it gives is the n-th of them.
pub payload_offset-Locates :
    (bytes : List ℕ) (field n : ℕ)
    → Locates bytes n (payload_offset bytes field (some n)) (payload_of bytes field)
unfolding payload_offset payload_of
payload_offset-Locates bytes field n = regroup_none (payload_of bytes field) (
    loop-Locates bytes n (proof_visit bytes field (some n)) (field_payload bytes field)
      (length bytes) (proof_visit-Locates bytes n field) (suc (length bytes)) 0 _ [] (omega arith)
      (omega arith)
      (record { counted = refl; present = λ e. absurd (cc e); absent = λ e. omega arith }))
  where
    regroup_none :
        (d : Ranged (List ℕ))
        → Locates bytes n (payload_offset bytes field (some n)) (after [] d)
        → Locates bytes n (payload_offset bytes field (some n)) d
    regroup_none stuck h = h
    regroup_none refused h = h
    regroup_none (ok l) h = h
