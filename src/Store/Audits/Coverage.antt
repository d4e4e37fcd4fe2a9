-- ===== src/Store/Audits/Coverage.antt =====
-- The coverage reports of internal/store/store.go: AuditCoverage, CoverageOf with longestRun, and
-- VerifiedRegion. A map from epochs to true is the list of its keys; `order` is the order in which Go
-- happens to range over it.
use kt_witness.Common.{
  ℕ, zero, suc, ◌+◌, ◌-◌, ◌≡◌, refl, sym, ap, ◌∙◌, ◌&&◌, Bool-cases, inl, inr, Bool, true, false,
  ◌||◌, not, List, [], ◌∷◌, length, ltb, ◌==◌, if◌then◌else◌, arith,
}
use kt_witness.Store.Audits.{Audit}

abbrev pub in_range : ℕ → ℕ → Audit → Bool
in_range from to a = not (ltb a.epoch from || ltb to a.epoch)

-- AuditCoverage: the settled and the verified epochs.
unfoldable pub audit_coverage : ℕ → ℕ → ℕ → ℕ → List Audit → ℕ × ℕ
audit_coverage from to settled verified [] = (settled, verified)
audit_coverage from to settled verified (a ∷ rest) =
    let counted =
      audit_coverage from to (settled + 1) (if a.verified then verified + 1 else verified) rest in
    let skipped = audit_coverage from to settled verified rest in
    if in_range from to a then counted else skipped

unfoldable pub has : ℕ → List ℕ → Bool
has e [] = false
has e (k ∷ keys) = (k == e) || has e keys

-- The inner loop of longestRun, for at most `rounds` more epochs; each is another key.
unfoldable pub run_end : ℕ → List ℕ → ℕ → ℕ
unfolding has
run_end zero keys end = end
run_end (suc rounds) keys end =
    let more = run_end rounds keys (end + 1) in if has (end + 1) keys then more else end

-- Where the longest run so far begins and ends, and its length.
abbrev pub Run : Type 0
Run = ℕ × ℕ × ℕ

abbrev pub begins : ℕ → List ℕ → Bool
begins epoch keys = if epoch == 0 then true else not (has (epoch - 1) keys)

unfoldable pub longest_loop : List ℕ → List ℕ → Run → Run
unfolding has run_end
longest_loop keys [] best = best
longest_loop keys (epoch ∷ rest) (lo, hi, run) =
    let end = run_end (length keys) keys epoch in
    let longer = longest_loop keys rest (epoch, end, end - epoch + 1) in
    let same = longest_loop keys rest (lo, hi, run) in
    if begins epoch keys then (if ltb run (end - epoch + 1) then longer else same) else same

unfoldable pub longest_run : (List ℕ → List ℕ) → List ℕ → Run
unfolding longest_loop
longest_run order keys = longest_loop keys (order keys) (0, 0, 0)

pub record Coverage : Type 0 where
  pub settled : ℕ
  pub verified : ℕ
  pub holes : ℕ
  pub region : Run

-- The scan of CoverageOf, with the keys of its map.
unfoldable pub coverage_loop : ℕ → ℕ → ℕ × ℕ × ℕ × List ℕ → List Audit → ℕ × ℕ × ℕ × List ℕ
coverage_loop from to found [] = found
coverage_loop from to (settled, verified, holes, keys) (a ∷ rest) =
    let hit = coverage_loop from to (settled + 1, verified + 1, holes, a.epoch ∷ keys) rest in
    let hole = coverage_loop from to (settled + 1, verified, holes + 1, keys) rest in
    let skipped = coverage_loop from to (settled, verified, holes, keys) rest in
    if in_range from to a then (if a.verified then hit else hole) else skipped

unfoldable pub coverage_of : (List ℕ → List ℕ) → ℕ → ℕ → List Audit → Coverage
unfolding coverage_loop longest_run
coverage_of order from to audits =
    let (settled, verified, holes, keys) = coverage_loop from to (0, 0, 0, []) audits in
    record {
      settled = settled;
      verified = verified;
      holes = holes;
      region = longest_run order keys;
    }

unfoldable pub region_loop : ℕ → ℕ → ℕ × List ℕ → List Audit → ℕ × List ℕ
region_loop from to found [] = found
region_loop from to (holes, keys) (a ∷ rest) =
    let hit = region_loop from to (holes, a.epoch ∷ keys) rest in
    let hole = region_loop from to (holes + 1, keys) rest in
    let skipped = region_loop from to (holes, keys) rest in
    if in_range from to a then (if a.verified then hit else hole) else skipped

-- The loops over the keys that VerifiedRegion has of its own, with the same variables.
unfoldable pub region_end : ℕ → List ℕ → ℕ → ℕ
unfolding has
region_end zero keys end = end
region_end (suc rounds) keys end =
    let more = region_end rounds keys (end + 1) in if has (end + 1) keys then more else end

unfoldable pub best_loop : List ℕ → List ℕ → Run → Run
unfolding has region_end
best_loop keys [] best = best
best_loop keys (epoch ∷ rest) (best_lo, best_hi, best_len) =
    let end = region_end (length keys) keys epoch in
    let n = end - epoch + 1 in
    let longer = best_loop keys rest (epoch, end, n) in
    let same = best_loop keys rest (best_lo, best_hi, best_len) in
    if not (epoch == 0) && has (epoch - 1) keys
    then same
    else if ltb best_len n
    then longer
    else same

-- VerifiedRegion: the longest run and the holes.
unfoldable pub verified_region : (List ℕ → List ℕ) → ℕ → ℕ → List Audit → Run × ℕ
unfolding region_loop best_loop
verified_region order from to audits =
    let (holes, keys) = region_loop from to (0, []) audits in
    (best_loop keys (order keys) (0, 0, 0), holes)

region_end-run_end :
    (rounds : ℕ) (keys : List ℕ) (end : ℕ) → region_end rounds keys end ≡ run_end rounds keys end
unfolding region_end run_end
region_end-run_end zero keys end = refl
region_end-run_end (suc rounds) keys end =
    ap (λ more. if has (end + 1) keys then more else end) (region_end-run_end rounds keys (end + 1))

begins_test :
    (epoch : ℕ) (keys : List ℕ) (x y : Run)
    → (if not (epoch == 0) && has (epoch - 1) keys then x else y)
      ≡ (if begins epoch keys then y else x)
begins_test epoch keys x y = elim (Bool-cases (epoch == 0)) [
  | inl first ↦ simp first refl
  | inr later ↦ elim (Bool-cases (has (epoch - 1) keys)) [
    | inl before ↦ simp (later, before) refl
    | inr none_before ↦ simp (later, none_before) refl
  ]
]

-- Both loops find one run.
best_loop-longest_loop :
    (keys l : List ℕ) (best : Run) → best_loop keys l best ≡ longest_loop keys l best
unfolding best_loop longest_loop
best_loop-longest_loop keys [] best = refl
best_loop-longest_loop keys (epoch ∷ rest) (lo, hi, run) =
    let e = run_end (length keys) keys epoch in
    let longer = best_loop-longest_loop keys rest (epoch, e, e - epoch + 1) in
    let same = best_loop-longest_loop keys rest (lo, hi, run) in
    ap
      (λ end.
        if not (epoch == 0) && has (epoch - 1) keys
        then best_loop keys rest (lo, hi, run)
        else if ltb run (end - epoch + 1)
        then best_loop keys rest (epoch, end, end - epoch + 1)
        else best_loop keys rest (lo, hi, run))
      (region_end-run_end (length keys) keys epoch)
    ∙ begins_test epoch keys _ _
    ∙ ap
        (λ (r : Run).
          if begins epoch keys
          then (if ltb run (e - epoch + 1) then r else best_loop keys rest (lo, hi, run))
          else best_loop keys rest (lo, hi, run))
        longer
    ∙ ap
        (λ (r : Run).
          if begins epoch keys
          then (if ltb run (e - epoch + 1)
              then longest_loop keys rest (epoch, e, e - epoch + 1)
              else r)
          else r)
        same

module _ (from to : ℕ) where
  coverage_loop-counts :
      (settled verified holes : ℕ) (keys : List ℕ) (l : List Audit)
      → settled ≡ verified + holes
      → let c = coverage_loop from to (settled, verified, holes, keys) l in
        ((c.0, c.1) ≡ audit_coverage from to settled verified l)
        × ((c.2, c.3) ≡ region_loop from to (holes, keys) l)
        × (c.0 ≡ c.1 + c.2)
  unfolding coverage_loop audit_coverage region_loop
  coverage_loop-counts settled verified holes keys [] h = (refl, refl, h)
  coverage_loop-counts settled verified holes keys (a ∷ l) h =
      elim (Bool-cases (in_range from to a)) [
        | inr outside ↦ simp outside (coverage_loop-counts settled verified holes keys l h)
        | inl inside ↦ elim (Bool-cases a.verified) [
          | inl hit ↦
              simp (inside, hit)
                (coverage_loop-counts (settled + 1) (verified + 1) holes (a.epoch ∷ keys) l
                  (omega arith))
          | inr hole ↦
              simp (inside, hole)
                (coverage_loop-counts (settled + 1) verified (holes + 1) keys l (omega arith))
        ]
      ]

  -- CoverageOf gives in one scan what AuditCoverage and VerifiedRegion give, where Go ranges over the
  -- map in the same order, and every settled epoch is verified or a hole.
  pub coverage_of-agrees :
      (order : List ℕ → List ℕ) (audits : List Audit)
      → let c = coverage_of order from to audits in
        (audit_coverage from to 0 0 audits ≡ (c.settled, c.verified))
        × (verified_region order from to audits ≡ (c.region, c.holes))
        × (c.settled ≡ c.verified + c.holes)
  unfolding coverage_of verified_region longest_run
  coverage_of-agrees order audits =
      let (counts, region, sum) = coverage_loop-counts 0 0 0 [] audits refl in
      (
        sym counts,
        ap (λ (x : ℕ × List ℕ). (best_loop x.1 (order x.1) (0, 0, 0), x.0)) (sym region)
            ∙ ap (λ r. (r, (coverage_loop from to (0, 0, 0, []) audits).2))
                (best_loop-longest_loop (coverage_loop from to (0, 0, 0, []) audits).3
                  (order (coverage_loop from to (0, 0, 0, []) audits).3) (0, 0, 0)),
        sum,
      )
