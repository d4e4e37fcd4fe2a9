-- ===== src/Store/AuditExamples.antt =====
-- Tests of the audit records of internal/store on concrete records.
use kt_witness.Common.{
  ℕ, ◌+◌, ◌≡◌, refl, Bool, true, false, Option, none, some, List, [], ◌∷◌, take, arith,
}
use kt_witness.Store.Memory.{memory, empty}
use kt_witness.Store.Audits.{Audit, AuditsInOrder, first_unverified, holes_due}
use kt_witness.Store.Audits.Unverified.{IsFirstUnverified, first_unverified-IsFirstUnverified}
use kt_witness.Store.Audits.Holes.{due_epochs, Ascending, holes_due-Ascending}
use kt_witness.Store.Audits.Coverage.{
  coverage_of, audit_coverage, verified_region, has, coverage_of-agrees,
}
use kt_witness.Store.Population.{
  Process, committed, record_audit, audit_population, restarted, audit_population_overcounts,
}

abbrev audited : ℕ → Bool → ℕ → Option ℕ → Audit
audited epoch verified attempts after = record {
  epoch = epoch;
  verified = verified;
  attempts = attempts;
  retry_after = after;
}

-- Epoch 4 was never recorded, and the hole at 5 is eligible later than the one at 7.
abbrev audits : List Audit
audits =
    audited 3 true 1 none
    ∷ audited 5 false 4 (some 90)
    ∷ audited 6 true 1 none
    ∷ audited 7 false 3 (some 20)
    ∷ []

audits-AuditsInOrder : AuditsInOrder audits
audits-AuditsInOrder = (
  (omega arith, (omega arith, (omega arith, tt))),
  ((omega arith, (omega arith, tt)), ((omega arith, tt), (tt, tt))),
)

first_unverified-IsFirstUnverified_example :
    IsFirstUnverified 3 9 audits (first_unverified 3 9 audits)
first_unverified-IsFirstUnverified_example =
    first_unverified-IsFirstUnverified 3 9 audits audits-AuditsInOrder

holes_due-Ascending_example :
    (holes_due 0 9 100 5 audits ≡ take 5 (due_epochs 0 9 100 audits))
    × Ascending (holes_due 0 9 100 5 audits)
holes_due-Ascending_example = holes_due-Ascending 0 9 100 5 audits audits-AuditsInOrder

abbrev started : Process memory
started = record { audits = empty; counts = λ _. none }

audit_population_overcounts_example :
    (audit_population memory
      (record_audit memory committed "log" (audited 3 true 1 none) started)
      "log").1
    ≡ (audit_population memory
        (restarted memory (record_audit memory committed "log" (audited 3 true 1 none) started))
        "log").1
      + 1
audit_population_overcounts_example =
    audit_population_overcounts memory started "log" (audited 3 true 1 none) refl refl (omega arith)

coverage_of-agrees_example :
    let c = coverage_of (λ keys. keys) 0 9 audits in
    (audit_coverage 0 9 0 0 audits ≡ (c.settled, c.verified))
    × (verified_region (λ keys. keys) 0 9 audits ≡ (c.region, c.holes))
    × (c.settled ≡ c.verified + c.holes)
coverage_of-agrees_example = coverage_of-agrees 0 9 (λ keys. keys) audits

region_of_audits : verified_region (λ keys. keys) 0 9 audits ≡ ((6, 6, 1), 2)
unfolding verified_region has
region_of_audits = refl
