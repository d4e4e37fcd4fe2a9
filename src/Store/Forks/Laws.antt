-- ===== src/Store/Forks/Laws.antt =====
-- What recording a fork and retracting one promise.
use mathlib.Core.List.{Mem, Mem-prop, mem-cons, mem-cons_self, mem-cons_of_mem, not-mem-nil}
use mathlib.Core.Logic.Or
use native.Mathlib.Bridge.{le_prop}
use kt_witness.Common.{
  String, ◌≡◌, ◌≢◌, inl, inr, ◌≤◌, refl, sym, subst, Bool, Bool-cases, inl, inr, All, ltb, true,
  Option, none, some, List, [], ◌∷◌, arith, str_eq, str_eq_iff,
}
use kt_witness.Store.Bolt.{Bolt, by_origin}
use kt_witness.Store.Db.{Fork, Time, Db, ok, transact-ok}
use kt_witness.Store.Forks.{
  is_some, of_origin, earlier, earliest, poison_at, is_forked, record_fork, retract_finding,
  retract_fork,
}

module _ (bolt : Bolt) where
  -- Once the transaction commits, the log counts as forked, whatever was stored before.
  pub is_forked-record_fork :
      (f : Fork) (db : Db bolt)
      → is_forked bolt true (record_fork bolt true f db).0 f.origin ≡ ok true
  unfolding is_forked record_fork
  is_forked-record_fork f db = ground (
    arith,
    bolt.get-put db.poisoned (by_origin f.origin) (by_origin f.origin) f.detected_at,
    str_eq_iff f.origin f.origin,
  )

  -- Recording a fork never lifts a poison, of this log or another, and moves no head.
  pub record_fork_keeps :
      (commits : Bool) (f : Fork) (db : Db bolt) (o : String)
      → ((is_some (poison_at bolt db o) ≡ true
            → poison_at bolt (record_fork bolt commits f db).0 o ≡ poison_at bolt db o)
          × ((record_fork bolt commits f db).0.heads ≡ db.heads))
  unfolding record_fork
  record_fork_keeps commits f db o = ground (
    arith,
    bolt.get-put db.poisoned (by_origin f.origin) (by_origin o) f.detected_at,
    str_eq_iff f.origin o,
  )

  poisoned-record_fork :
      (f : Fork) (db : Db bolt)
      → is_some (poison_at bolt (record_fork bolt true f db).0 f.origin) ≡ true
  unfolding record_fork
  poisoned-record_fork f db = ground (
    arith,
    bolt.get-put db.poisoned (by_origin f.origin) (by_origin f.origin) f.detected_at,
    str_eq_iff f.origin f.origin,
  )

  record_fork-of_poisoned :
      (commits : Bool) (g : Fork) (db : Db bolt)
      → is_some (poison_at bolt db g.origin) ≡ true
      → (record_fork bolt commits g db).0 ≡ db
  unfolding record_fork
  record_fork-of_poisoned commits g db h = ground arith

  -- A second finding about a log changes nothing: the first evidence is the one kept.
  pub record_fork_again :
      (again : Bool) (f g : Fork) (db : Db bolt)
      → f.origin ≡ g.origin
      → (record_fork bolt again g (record_fork bolt true f db).0).0 ≡ (record_fork bolt true f db).0
  record_fork_again again f g db e =
      record_fork-of_poisoned again g (record_fork bolt true f db).0 (
        subst (λ o. is_some (poison_at bolt (record_fork bolt true f db).0 o) ≡ true) e
          (poisoned-record_fork f db))

earlier-le :
    (f c : Fork)
    → ((earlier (some f) c).detected_at ≤ f.detected_at)
      × ((earlier (some f) c).detected_at ≤ c.detected_at)
earlier-le f c = ground arith

earlier-mem : (f c : Fork) (l : List Fork) → Mem (earlier (some f) c) (f ∷ c ∷ l)
earlier-mem f c l = elim (Bool-cases (ltb c.detected_at f.detected_at)) [
  | inl e ↦ rw e (mem-cons_of_mem f mem-cons_self)
  | inr e ↦ rw e mem-cons_self
]

-- The accumulator f stands for the part of the list already read.
earliest_from :
    (f : Fork) (l : List Fork)
    → (g : Fork) × (earliest (some f) l ≡ some g)
      × Mem g (f ∷ l)
      × (g.detected_at ≤ f.detected_at)
      × All (λ c. g.detected_at ≤ c.detected_at) l
unfolding earliest
earliest_from f [] = (f, refl, mem-cons_self, omega arith, tt)
earliest_from f (c ∷ l) =
    let (g, e, m, first, rest) = earliest_from (earlier (some f) c) l in
    (
      g,
      e,
      Or.elim Mem-prop (mem-cons.0 m) (λ p. rw p (earlier-mem f c l))
          (λ q. mem-cons_of_mem f (mem-cons_of_mem c q)),
      omega (arith, earlier-le f c),
      (omega (arith, earlier-le f c), rest),
    )

All_at {ℓ} :
    {A : Type ℓ} {P : A → Type 0}
    → ((a : A) → IsProp (P a))
    → (l : List A) {a : A} → All P l
    → Mem a l
    → P a
All_at prop [] all m = absurd (not-mem-nil m)
All_at {P} prop (x ∷ l) {a} all m =
    Or.elim (prop a) (mem-cons.0 m) (λ e. subst P (sym e) all.0) (All_at prop l all.1)

-- The finding that a nonempty list of findings gives.
earliest_of :
    (l : List Fork) (g : Fork)
    → earliest none l ≡ some g
    → Mem g l × ((c : Fork) → Mem c l → g.detected_at ≤ c.detected_at)
unfolding earliest
earliest_of [] g h = cc
earliest_of (f ∷ l) g h =
    let (g', e, m, first, rest) = earliest_from f l in
    let same : g' ≡ g = ground arith in
    rw (← same) (m, λ c mc. All_at (λ _. le_prop) (f ∷ l) (first, rest) mc)

module _ (bolt : Bolt) (now : Time) (origin reason : String) (db : Db bolt) where
  -- What a retraction withdraws: the earliest finding about the log, stored verbatim, while all the
  -- evidence stays and the log is witnessed again.
  pub record Withdrawn (db' : Db bolt) (f : Fork) : Type 0 where
    pub stored : Mem f (bolt.scan db.forks (of_origin origin))
    pub first :
        (c : Fork) → Mem c (bolt.scan db.forks (of_origin origin)) → f.detected_at ≤ c.detected_at
    pub written :
        bolt.get db'.retractions (by_origin origin)
        ≡ some (record { origin = origin; reason = reason; retracted_at = now; fork = f })
    pub kept : db'.forks ≡ db.forks
    pub lifted : poison_at bolt db' origin ≡ none

  retract_finding-Withdrawn :
      (o : Option Fork)
      → earliest none (bolt.scan db.forks (of_origin origin)) ≡ o
      → (retract_finding bolt now origin reason o db).1 ≡ ok tt
      → (f : Fork) × Withdrawn (retract_finding bolt now origin reason o db).0 f
  unfolding retract_finding
  retract_finding-Withdrawn none e h = cc
  retract_finding-Withdrawn (some f) e h = (
    f,
    record {
      stored = (earliest_of _ f e).0;
      first = (earliest_of _ f e).1;
      written = ground (
        arith,
        bolt.get-put db.retractions (by_origin origin) (by_origin origin)
            (record { origin = origin; reason = reason; retracted_at = now; fork = f }),
        str_eq_iff origin origin,
      );
      kept = refl;
      lifted = ground (
        arith,
        bolt.get-delete db.poisoned (by_origin origin) (by_origin origin),
        str_eq_iff origin origin,
      );
    },
  )

  -- A retraction that succeeds gave a reason, was of a poisoned log, and withdraws what it shows.
  pub retract_fork-ok :
      (commits : Bool)
      → (retract_fork bolt commits now origin reason db).1 ≡ ok tt
      → (reason ≢ "")
        × (is_some (poison_at bolt db origin) ≡ true)
        × ((f : Fork) × Withdrawn (retract_fork bolt commits now origin reason db).0 f)
  unfolding retract_fork
  retract_fork-ok commits h = elim (Bool-cases (str_eq reason "")) [
    | inl empty ↦ ground arith
    | inr given ↦ elim (Bool-cases (is_some (poison_at bolt db origin))) [
      | inr clean ↦ ground arith
      | inl poisoned ↦
          let (r, s) = transact-ok commits db _ _ (rw (given, poisoned) at h) in
          (
            ground (arith, str_eq_iff reason ""),
            poisoned,
            rw (given, poisoned) (rw s (retract_finding-Withdrawn _ refl r)),
          )
    ]
  ]
