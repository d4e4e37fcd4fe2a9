-- ===== src/Store/Population.antt =====
-- Store.RecordAudit of internal/store/store.go and the number of records it keeps in memory. The cursor
-- is read in the order of the keys, so the first records of a log are its oldest.
use kt_witness.Common.{
  ℕ, ◌+◌, ◌-◌, ◌≤◌, String, ◌≡◌, refl, Option, none, some, List, [], ◌∷◌, length, take, leb, str_eq,
  str_eq_iff, if◌then◌else◌, le→leb,
}
use kt_witness.Store.Bolt.{Bolt, by_number}
use kt_witness.Store.Forks.{is_some, of_origin}
use kt_witness.Store.Audits.{Audit}

abbrev pub max_audits_per_origin : ℕ
max_audits_per_origin = 750000

-- How bbolt carries out a transaction: its function runs unless the transaction does not begin.
pub data Fate : Type 0 where
  not_begun not_committed committed : Fate

-- `counts` is the map auditN; a nil map holds nothing.
pub record Process (bolt : Bolt) : Type 0 where
  pub audits : bolt.Bucket Audit
  pub counts : String → Option ℕ

abbrev set_audit_count : (String → Option ℕ) → String → ℕ → String → Option ℕ
set_audit_count counts origin n o = if str_eq origin o then some n else counts o

module _ (bolt : Bolt) where
  abbrev scanned : bolt.Bucket Audit → String → ℕ
  scanned b origin = length (bolt.scan b (of_origin origin))

  -- auditCount, read after the new key is put.
  abbrev audit_count : bolt.Bucket Audit → Option ℕ → String → ℕ
  audit_count b none origin = scanned b origin + 1
  audit_count b (some n) origin = n + 1

  delete_all : String → List Audit → bolt.Bucket Audit → bolt.Bucket Audit
  delete_all origin [] b = b
  delete_all origin (a ∷ rest) b = delete_all origin rest (bolt.delete b (by_number origin a.epoch))

  trim_audits : String → ℕ → bolt.Bucket Audit → bolt.Bucket Audit
  unfolding delete_all
  trim_audits origin excess b = delete_all origin (take excess (bolt.scan b (of_origin origin))) b

  -- What the transaction writes to the bucket and to the counts.
  recorded : String → Audit → Process bolt → Process bolt
  unfolding trim_audits
  recorded origin a p =
      let b = bolt.put p.audits (by_number origin a.epoch) a in
      let n = audit_count b (p.counts origin) origin in
      if is_some (bolt.get p.audits (by_number origin a.epoch))
      then record p { audits = b }
      else if leb n max_audits_per_origin
      then record { audits = b; counts = set_audit_count p.counts origin n }
      else record {
        audits = trim_audits origin (n - max_audits_per_origin) b;
        counts = set_audit_count (set_audit_count p.counts origin n) origin max_audits_per_origin;
      }

  -- The counts are not rolled back.
  unfoldable pub record_audit : Fate → String → Audit → Process bolt → Process bolt
  unfolding recorded
  record_audit not_begun origin a p = p
  record_audit not_committed origin a p = record (recorded origin a p) { audits = p.audits }
  record_audit committed origin a p = recorded origin a p

  -- AuditPopulation, where its read succeeds: a count that is scanned is kept.
  unfoldable pub audit_population : Process bolt → String → Process bolt × ℕ
  audit_population p origin = elim (p.counts origin) [
    | some n ↦ (p, n)
    | none ↦
        let n = scanned p.audits origin in
        (record p { counts = set_audit_count p.counts origin n }, n)
  ]

  -- The process starts again on the same database.
  abbrev pub restarted : Process bolt → Process bolt
  restarted p = record p { counts = λ _. none }

  recorded-first :
      (p : Process bolt) (origin : String) (a : Audit)
      → p.counts origin ≡ none
      → bolt.get p.audits (by_number origin a.epoch) ≡ none
      → scanned (bolt.put p.audits (by_number origin a.epoch) a) origin + 1 ≤ max_audits_per_origin
      → recorded origin a p ≡ record {
        audits = bolt.put p.audits (by_number origin a.epoch) a;
        counts =
            set_audit_count p.counts origin
              (scanned (bolt.put p.audits (by_number origin a.epoch) a) origin + 1);
      }
  unfolding recorded
  recorded-first p origin a unknown new below = rw (unknown, new, le→leb _ _ below) refl

  -- The first new record of a log that is written while the process holds no count of the log, neither
  -- from a write nor from AuditPopulation, is counted twice, below the cap: a process that starts
  -- afterwards finds one record fewer.
  pub audit_population_overcounts :
      (p : Process bolt) (origin : String) (a : Audit)
      → p.counts origin ≡ none
      → bolt.get p.audits (by_number origin a.epoch) ≡ none
      → length (bolt.scan (bolt.put p.audits (by_number origin a.epoch) a) (of_origin origin)) + 1
        ≤ max_audits_per_origin
      → (audit_population (record_audit committed origin a p) origin).1
        ≡ (audit_population (restarted (record_audit committed origin a p)) origin).1 + 1
  unfolding record_audit audit_population
  audit_population_overcounts p origin a unknown new below =
      rw
        (
          recorded-first p origin a unknown new below,
          audit_population,
          (str_eq_iff origin origin).1 refl,
        )
        refl
