-- ===== src/Witness/Gate.antt =====
-- Gate 1 of Witness.Process: monotonicity and agreement at one size.
use kt_witness.Common.{
  ◌<◌, ◌≤◌, ◌-◌, ◌≡◌, ◌≢◌, ◌↔◌, ◌⊎◌, inl, inr, refl, Bool, true, false, Option, none, some, ltb,
  arith, Bool-cases,
}
use kt_witness.Source.{Head, ForkError, Answer, value, contradiction, failed, Source}
use kt_witness.Store.Db.{Time, Record}
use kt_witness.Witness.Types.{Witness, stop, accuse, go_on, head_from, stale_replica}
use kt_witness.Witness.Process.{gate, regression, conflict, keeps_quiet}

module _ {Note : Type 0} (w : Witness Note) (src : Source Note) (now : Time) (r : Record)
    (next : Head Note) where
  -- What the log has said that cannot be true of one append-only tree.
  abbrev pub Contradicted : Type 0
  Contradicted =
      ((next.size ≡ r.size) × (next.hash ≢ r.hash))
      ⊎ ((next.size < r.size)
          × ((fe : ForkError Note) × (src.verify_consistency (some next) (head_from r)
                ≡ contradiction fe)))

  regression-accuse :
      (a : Answer Note Unit) (fe : ForkError Note)
      → regression src r next a ≡ accuse fe
      → (fe' : ForkError Note) × (a ≡ contradiction fe')
  regression-accuse (value u) fe h = cc
  regression-accuse (contradiction fe') fe h = (fe', refl)
  regression-accuse failed fe h = cc

  accuse-Contradicted :
      (fe : ForkError Note)
      → gate w src now (some r) next ≡ accuse fe
      → (src.derived_head ≡ false) × Contradicted
  unfolding gate
  accuse-Contradicted fe h = elim (Bool-cases src.derived_head) [
    | inl derived ↦ ground arith
    | inr signed ↦ elim (Bool-cases (ltb next.size r.size)) [
      | inl smaller ↦
          (signed, inr (ground arith, regression-accuse _ fe (rw (smaller, signed) at h)))
      | inr larger ↦ (signed, inl (ground arith))
    ]
  ]

  Contradicted-accuse :
      src.derived_head ≡ false
      → Contradicted
      → (fe : ForkError Note) × (gate w src now (some r) next ≡ accuse fe)
  unfolding gate
  Contradicted-accuse signed (inl (size, hash)) = (conflict src "split view" r next, ground arith)
  Contradicted-accuse signed (inr (smaller, (fe, e))) = (
    conflict src "size went backwards; and the smaller tree is not a prefix of the larger" r next,
    ground arith,
  )

  -- An unchanged tree is to be cosigned again: the source asks for it, or there is an interval and it
  -- has passed since the record was written.
  abbrev pub RefreshDue : Type 0
  RefreshDue =
      (src.refresh_now ≡ some true)
      ⊎ ((w.refresh_interval ≢ 0) × (w.refresh_interval ≤ now - r.witnessed_at))

  keeps_quiet-RefreshDue : (keeps_quiet w src now r ≡ false) ↔ RefreshDue
  keeps_quiet-RefreshDue = by_request src.refresh_now refl
    where
      by_request :
          (asked : Option Bool)
          → src.refresh_now ≡ asked
          → (keeps_quiet w src now r ≡ false) ↔ RefreshDue
      by_request none e = simp e (λ h. ground arith, λ p. ground arith)
      by_request (some true) e = simp e (λ h. inl refl, λ p. refl)
      by_request (some false) e = simp e (λ h. ground arith, λ p. ground arith)

  go_on_cases :
      (refresh : Bool)
      → (gate w src now (some r) next ≡ go_on refresh) ↔ (
          ((r.size < next.size) × (refresh ≡ false))
          ⊎ ((next.size ≡ r.size)
              × (next.hash ≡ r.hash)
              × (keeps_quiet w src now r ≡ false)
              × (refresh ≡ true)))
  unfolding gate
  go_on_cases refresh = (λ h. ground arith, λ p. ground arith)

  -- The round goes on to sign exactly when the tree has grown, or is the witnessed one and the source
  -- asks for a refresh or an interval is set and has passed since the tree was last cosigned; it goes
  -- on with the refresh flag exactly in the second case.
  pub gate-go_on_iff :
      (refresh : Bool)
      → (gate w src now (some r) next ≡ go_on refresh) ↔ (
          ((r.size < next.size) × (refresh ≡ false))
          ⊎ ((next.size ≡ r.size) × (next.hash ≡ r.hash) × RefreshDue × (refresh ≡ true)))
  gate-go_on_iff refresh = (
    λ h. elim ((go_on_cases refresh).0 h) [
      | inl grown ↦ inl grown
      | inr (size, hash, loud, flag) ↦ inr (size, hash, keeps_quiet-RefreshDue.0 loud, flag)
    ],
    λ p. elim p [
      | inl grown ↦ (go_on_cases refresh).1 (inl grown)
      | inr (size, hash, due, flag) ↦
          (go_on_cases refresh).1 (inr (size, hash, keeps_quiet-RefreshDue.1 due, flag))
    ],
  )

  -- A smaller head that the log signed is no accusation when the witnessed tree extends it: it is an
  -- old head, and the round is withheld.
  pub gate-stale_replica :
      src.derived_head ≡ false
      → next.size < r.size
      → src.verify_consistency (some next) (head_from r) ≡ value tt
      → gate w src now (some r) next ≡ stop stale_replica
  unfolding gate
  gate-stale_replica signed smaller extends = ground arith

  -- Gate 1 accuses exactly the logs whose heads carry the log's signature, and which served another
  -- root at the witnessed size, or a smaller head that the witnessed tree contradicts.
  pub gate-accuse_iff :
      ((fe : ForkError Note) × (gate w src now (some r) next ≡ accuse fe))
      ↔ ((src.derived_head ≡ false) × Contradicted)
  gate-accuse_iff = (λ p. accuse-Contradicted p.0 p.1, λ p. Contradicted-accuse p.0 p.1)
