-- ===== src/Signal/Guide/Earliest.antt =====
-- What a finished search of internal/source/signal/implicit.go answers.
use kt_witness.Common.{
  ℕ, zero, suc, ◌+◌, ◌-◌, ◌≤◌, ◌<◌, ◌≡◌, ◌≢◌, ◌⊎◌, inl, inr, refl, ap, sym, subst, ◌∙◌, arith, Bool,
  true, false, Bool-cases, not, List, [], ◌∷◌, ◌++◌, length, All, Option, none, some, ltb, leb,
  ◌==◌, ==_iff, if◌then◌else◌,
}
use kt_witness.Signal.Numbering.{Outcome, stuck, rejects, gives, ◌>=>◌, malformed_chain}
use kt_witness.Signal.Guide.{
  VersionedId, ProofGuide, put_by_id, sort_ids, is_monotonic, with_version, version_at,
  last_version, last_id, next_step, poll_from, poll, smallest, index_of, result_at, result,
  is_leaf_node, search_left, search_right,
}

-- The entries of a search in the order of the log, with versions that do not decrease.
unfoldable pub IsInOrder : List VersionedId → Type 0
IsInOrder [] = Unit
IsInOrder (v ∷ rest) = All (λ w. (v.id ≤ w.id) × (v.version ≤ w.version)) rest × IsInOrder rest

abbrev AscendingIds : List VersionedId → Type 0
AscendingIds [] = Unit
AscendingIds (v ∷ rest) = All (λ w. v.id ≤ w.id) rest × AscendingIds rest

All-put :
    (P : VersionedId → Type 0) (v : VersionedId) (l : List VersionedId)
    → P v
    → All P l
    → All P (put_by_id v l)
unfolding put_by_id
All-put P v [] p all = (p, tt)
All-put P v (w ∷ rest) p (q, all) = elim (Bool-cases (ltb w.id v.id)) [
  | inl b ↦ simp b (q, All-put P v rest p all)
  | inr b ↦ simp b (p, (q, all))
]

All-below : (n m : ℕ) (l : List VersionedId) → n ≤ m → All (λ w. m ≤ w.id) l → All (λ w. n ≤ w.id) l
All-below n m [] h all = tt
All-below n m (w ∷ l) h (k, all) = (omega (arith, h, k), All-below n m l h all)

put_by_id-AscendingIds :
    (v : VersionedId) (l : List VersionedId) → AscendingIds l → AscendingIds (put_by_id v l)
unfolding put_by_id
put_by_id-AscendingIds v [] s = (tt, tt)
put_by_id-AscendingIds v (w ∷ rest) (h, s) = elim (Bool-cases (ltb w.id v.id)) [
  | inl b ↦
      let low : w.id ≤ v.id = ground (arith, b) in
      simp b (All-put (λ x. w.id ≤ x.id) v rest low h, put_by_id-AscendingIds v rest s)
  | inr b ↦
      let low : v.id ≤ w.id = ground (arith, b) in
      simp b ((low, All-below v.id w.id rest low h), (h, s))
]

sort_ids-AscendingIds : (l : List VersionedId) → AscendingIds (sort_ids l)
unfolding sort_ids
sort_ids-AscendingIds [] = tt
sort_ids-AscendingIds (v ∷ rest) =
    put_by_id-AscendingIds v (sort_ids rest) (sort_ids-AscendingIds rest)

monotonic-versions :
    (v : VersionedId) (l : List VersionedId)
    → is_monotonic (v ∷ l) ≡ true
    → All (λ w. v.version ≤ w.version) l
unfolding is_monotonic
monotonic-versions v [] h = tt
monotonic-versions v (w ∷ rest) h =
    let first : v.version ≤ w.version = ground (arith, h) in
    let more : is_monotonic (w ∷ rest) ≡ true = ground (arith, h) in
    (first, raised v.version w.version rest first (monotonic-versions w rest more))
  where
    raised :
        (n m : ℕ) (l : List VersionedId)
        → n ≤ m
        → All (λ x. m ≤ x.version) l
        → All (λ x. n ≤ x.version) l
    raised n m [] h all = tt
    raised n m (x ∷ l) h (k, all) = (omega (arith, h, k), raised n m l h all)

in_order : (l : List VersionedId) → AscendingIds l → is_monotonic l ≡ true → IsInOrder l
unfolding IsInOrder is_monotonic
in_order [] s m = tt
in_order (v ∷ []) s m = (tt, tt)
in_order (v ∷ w ∷ rest) (h, s) m =
    let more : is_monotonic (w ∷ rest) ≡ true = ground (arith, m) in
    (both (w ∷ rest) h (monotonic-versions v (w ∷ rest) m), in_order (w ∷ rest) s more)
  where
    both :
        (l : List VersionedId)
        → All (λ x. v.id ≤ x.id) l
        → All (λ x. v.version ≤ x.version) l
        → All (λ x. (v.id ≤ x.id) × (v.version ≤ x.version)) l
    both [] a b = tt
    both (x ∷ l) (a, p) (b, q) = ((a, b), both l p q)

-- An entry with this id and this version.
abbrev pub HasEntry : ℕ → ℕ → List VersionedId → Type 0
HasEntry id version [] = zero ≡ suc zero
HasEntry id version (v ∷ rest) =
    ◌⊎◌ ((v.id ≡ id) × (v.version ≡ version)) (HasEntry id version rest)

-- The earliest entry with the version, or that there is none.
abbrev pub IsEarliest : ℕ → List VersionedId → Option ℕ → Type 0
IsEarliest version l none = All (λ v. v.version ≢ version) l
IsEarliest version l (some id) =
    HasEntry id version l × All (λ v. v.version ≡ version → id ≤ v.id) l

smallest-IsEarliest :
    (version : ℕ) (l : List VersionedId) → IsInOrder l → IsEarliest version l (smallest version l)
unfolding smallest IsInOrder
smallest-IsEarliest version [] s = tt
smallest-IsEarliest version (v ∷ rest) (h, s) = elim (Bool-cases (leb version v.version)) [
  | inl high ↦ elim (Bool-cases (v.version == version)) [
    | inl same ↦
        simp (high, same) (inl (refl, (==_iff _ _).0 same), ((λ e. omega arith), firsts rest h))
    | inr other ↦
        let above : version < v.version = ground (arith, high, other) in
        simp (high, other) ((λ e. omega (arith, e, above)), beyond rest h above)
  ]
  | inr low ↦
      let below : v.version < version = ground (arith, low) in
      simp low (skip (smallest version rest) (smallest-IsEarliest version rest s) below)
]
  where
    firsts :
        (l : List VersionedId)
        → All (λ w. (v.id ≤ w.id) × (v.version ≤ w.version)) l
        → All (λ w. w.version ≡ version → v.id ≤ w.id) l
    firsts [] all = tt
    firsts (w ∷ l) (k, all) = ((λ e. k.0), firsts l all)

    beyond :
        (l : List VersionedId)
        → All (λ w. (v.id ≤ w.id) × (v.version ≤ w.version)) l
        → version < v.version
        → All (λ w. w.version ≢ version) l
    beyond [] all above = tt
    beyond (w ∷ l) (k, all) above = ((λ e. omega (arith, e, above, k)), beyond l all above)

    skip :
        (found : Option ℕ)
        → IsEarliest version rest found
        → v.version < version
        → IsEarliest version (v ∷ rest) found
    skip none all below = ((λ e. omega (arith, e, below)), all)
    skip (some id) (has, all) below = (inr has, ((λ e. absurd (omega (arith, e, below))), all))

-- A round gives these entries, or no answer.
abbrev Holds : List VersionedId → Outcome (Bool × ProofGuide) → Type 0
Holds s stuck = Unit
Holds s (rejects why) = Unit
Holds s (gives r) = r.1.sorted ≡ s

Holds-if :
    (s : List VersionedId) (test : Bool) (x y : Outcome (Bool × ProofGuide))
    → Holds s x
    → Holds s y
    → Holds s (if test then x else y)
Holds-if s true x y h k = h
Holds-if s false x y h k = k

stepped :
    (g : ProofGuide) (next : Outcome ℕ)
    → Holds g.sorted (next >=> λ i. gives (false, record g { ids = g.ids ++ (i ∷ []) }))
stepped g stuck = tt
stepped g (rejects why) = tt
stepped g (gives i) = refl

next_step-Holds :
    (g : ProofGuide) (last : ℕ) (ctr : Option ℕ) → Holds g.sorted (next_step g last ctr)
next_step-Holds g last none = tt
next_step-Holds g last (some ctr) =
    Holds-if g.sorted (ltb ctr g.version) _ _
      (Holds-if g.sorted (last == g.n - 1) _ _ refl (stepped g (search_right last g.pos g.n)))
      (Holds-if g.sorted (last == g.pos) _ _ refl (stepped g (search_left last g.pos g.n)))

poll_from-Holds : (g : ProofGuide) (last : Option ℕ) → Holds g.sorted (poll_from g last)
poll_from-Holds g none = tt
poll_from-Holds g (some last) =
    Holds-if g.sorted (is_leaf_node last) _ _ refl
      (next_step-Holds g last (version_at last g.sorted))

index_of_id : (i id : ℕ) (ids : List ℕ) (r : ℕ × ℕ) → index_of i id ids ≡ some r → r.1 ≡ id
index_of_id i id [] r h = absurd cc
index_of_id i id (j ∷ rest) r h = elim (Bool-cases (j == id)) [
  | inl b ↦
      let same : j ≡ id = (==_iff _ _).0 b in
      let here : some (i, j) ≡ some r = (simp b refl) ∙ h in cc (here, same)
  | inr b ↦ index_of_id (i + 1) id rest r ((simp b refl) ∙ h)
]

polled :
    (g h : ProofGuide) (s : List VersionedId) (few mono : Bool) (rest : Outcome (Bool × ProofGuide))
    → (if few then gives (false, g) else if not mono then rejects malformed_chain else rest)
      ≡ gives (true, h)
    → Holds s rest
    → (mono ≡ true) × (h.sorted ≡ s)
polled g h s true mono rest e holds = absurd cc
polled g h s false false rest e holds = absurd cc
polled g h s false true rest e holds = (refl, subst (Holds s) e holds)

result_at_id :
    (ids : List ℕ) (found : Option ℕ) (r : ℕ × ℕ)
    → result_at ids found ≡ some r
    → found ≡ some (r.1)
result_at_id ids none r h = absurd cc
result_at_id ids (some id) r h = ap some (sym (index_of_id 0 id ids r h))

-- Where poll says that the search is done and result gives a node, this is the first in the log of the
-- nodes looked at whose version is the one searched for.
pub result-IsEarliest :
    (g h : ProofGuide) (r : ℕ × ℕ)
    → poll g ≡ gives (true, h)
    → result h ≡ some r
    → IsInOrder h.sorted × IsEarliest h.version h.sorted (some (r.1))
unfolding poll result
result-IsEarliest g h r done found =
    let s = sort_ids g.sorted in
    let newest = last_version 0 s in
    let (mono, same) = polled g h s (ltb (length g.sorted) (length g.ids)) (is_monotonic s) _ done (
      Holds-if s g.is_frontier _ _
        (poll_from-Holds (record g { sorted = s; version = newest; is_frontier = false })
          (with_version newest s))
        (poll_from-Holds (record g { sorted = s }) (some (last_id 0 g.ids)))) in
    let ordered : IsInOrder h.sorted =
      subst IsInOrder (sym same) (in_order s (sort_ids-AscendingIds g.sorted) mono) in
    (
      ordered,
      subst (IsEarliest h.version h.sorted)
          (result_at_id h.ids (smallest h.version h.sorted) r found)
          (smallest-IsEarliest h.version h.sorted ordered),
    )
