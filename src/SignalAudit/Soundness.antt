-- ===== src/SignalAudit/Soundness.antt =====
-- Every update that Apply accepts is a change of the prefix tree that the protocol allows.
use kt_witness.Common.{
  ℕ, ◌+◌, ◌%◌, ◌≡◌, ◌≢◌, ◌≤◌, refl, ap, sym, subst, ◌∙◌, List, [], ◌∷◌, ◌++◌, length, some, ◌==◌,
  if◌then◌else◌, ◌⊎◌, inl, inr, true, false, Bool-cases, arith, ∷-split, append-split,
  length-append,
}
use kt_witness.Signal.Node.{Value}
use kt_witness.Signal.Consistency.{same_value-eq}
use kt_witness.Signal.Frontier.{append}
use kt_witness.Signal.Frontier
use kt_witness.Signal.Prefix.{leaf_bytes, prefix_leaf_hash, log_leaf_hash}
use kt_witness.SignalAudit.Update.{Update, validate, new_tree, different_key, same_key}
use kt_witness.SignalAudit.State.{
  State, Applied, stuck, panics, rejected, contradicts, Contradiction, applied, and_then, checked,
  fold, pad_copath, real_root, fake_root, new_tree_root, different_key_root, same_key_root,
  next_root, advance, apply,
}
use kt_witness.SignalAudit.Tree.{
  Tree, stand_in, leaf, branch, node_at, graft, inserted, Step, starts, inserts, counts, input_at,
  root_at, Collides,
}
use kt_witness.SignalAudit.Walk.{foot, fold-folded, Follows, walk}
use kt_witness.SignalAudit.Paths.{length-pad_copath, real_root-fold, fake_root-fold, fold-graft}

pub and_then-applied :
    {A B : Type 0} {b : B} (one : Applied A) (next : A → Applied B)
    → and_then one next ≡ applied b
    → (a : A) × (one ≡ applied a) × (next a ≡ applied b)
and_then-applied stuck next e = cc
and_then-applied panics next e = cc
and_then-applied (rejected why) next e = cc
and_then-applied (contradicts why) next e = cc
and_then-applied (applied a) next e = (a, refl, e)

applied-inj : {A : Type 0} {a b : A} → applied a ≡ applied b → a ≡ b
applied-inj e = ground arith

not-applied :
    {A : Type 0} {why : Contradiction} {b : A}
    → ◌≡◌ {A = Applied A} (contradicts why) (applied b)
    → ⊥
not-applied e = cc

-- What validate has made sure of.
record IsChecked (u : Update) : Type 0 where
  kinds : ◌⊎◌ (u.proof ≡ new_tree) (◌⊎◌ (u.proof ≡ different_key) (u.proof ≡ same_key))
  short : length u.copath ≤ 256

checked-IsChecked : (u : Update) → checked u ≡ applied tt → IsChecked u
unfolding validate
checked-IsChecked u h = record { kinds = ground arith; short = ground arith }

module _ (sha256 : List ℕ → Value) where
  -- One of the two proofs that an update may carry collides with the tree.
  abbrev pub ProofCollides : Update → Tree → Type 0
  ProofCollides u t =
      ◌⊎◌
        (Collides sha256 0 u.index (2 ∷ u.old_seed ++ (length u.copath + 255) % 256 ∷ []) u.copath
          t)
        (Collides sha256 0 u.index (0 ∷ leaf_bytes u.index u.counter u.position)
          (pad_copath sha256 u.copath u.seed) t)

  -- The tree has the prefix root of a state that has one.
  abbrev pub IsTreeOf : Tree → State → Type 0
  IsTreeOf t s = s.log.size ≢ 0 → root_at sha256 0 t ≡ s.prefix_root

  stand_in-only :
      (d level : ℕ) (seed : List ℕ) (node : Tree)
      → 2 ∷ seed ++ level ∷ [] ≡ input_at sha256 d node
      → node ≡ stand_in seed
  unfolding input_at
  stand_in-only d level seed (stand_in other) e =
      let tails = (∷-split e).1 in
      let short : length seed ≡ length other = omega (
        arith,
        ap length tails,
        length-append seed (level ∷ []),
        length-append other ((d + 255) % 256 ∷ []),
      ) in
      ap stand_in (sym (append-split seed other _ _ short tails).0)
  stand_in-only d level seed (leaf bytes) e = absurd (omega (arith, (∷-split e).0))
  stand_in-only d level seed (branch l r) e = absurd (omega (arith, (∷-split e).0))

  leaf-only :
      (d : ℕ) (bytes : List ℕ) (node : Tree)
      → 0 ∷ bytes ≡ input_at sha256 d node
      → node ≡ leaf bytes
  unfolding input_at
  leaf-only d bytes (stand_in seed) e = absurd (omega (arith, (∷-split e).0))
  leaf-only d bytes (leaf other) e = ap leaf (sym (∷-split e).1)
  leaf-only d bytes (branch l r) e = absurd (omega (arith, (∷-split e).0))

  module _ (size : (x : List ℕ) → length (sha256 x) ≡ 32) (s : State) (u : Update) (t : Tree)
      (rooted : IsTreeOf t s) (is_checked : IsChecked u) where
    -- A change of the tree that gives this prefix root, or a collision.
    abbrev Allowed : Value → Type 0
    Allowed next =
        ◌⊎◌ (ProofCollides u t)
          ((after : Tree) × (Step s.log.size u t after) × (root_at sha256 0 after ≡ next))

    new_tree_root-Allowed :
        (next : Value)
        → u.proof ≡ new_tree
        → new_tree_root sha256 s.log.size u ≡ applied next
        → Allowed next
    unfolding new_tree_root fold
    new_tree_root-Allowed next kind e = elim (Bool-cases (s.log.size == 0)) [
      | inl z ↦
          let empty : s.log.size ≡ 0 = ground arith in
          let root : real_root sha256 u.index 0 0 [] u.seed ≡ next = applied-inj (simp z at e) in
          inr (
            _,
            starts kind empty,
            sym (real_root-fold sha256 u.index 0 0 [] u.seed (omega arith)) ∙ root,
          )
      | inr z ↦ absurd (not-applied (simp z at e))
    ]

    -- The tree after a proof that follows it, with a new node at its end.
    grafted :
        (index input : List ℕ) (copath : List Value) (new : Tree) (next : Value)
        → Step s.log.size u t (graft 0 index (length copath) t new)
        → Follows sha256 0 index input copath t
        → fold sha256 0 index (root_at sha256 (foot 0 copath) new) copath ≡ next
        → Allowed next
    grafted index input copath new next step f root =
        inr (_, step, sym (fold-graft sha256 index input copath t new f) ∙ root)

    inserted_root :
        (if u.real
          then real_root sha256 u.index 0 s.log.size u.copath u.seed
          else fake_root sha256 u.index u.copath u.seed)
        ≡ fold sha256 0 u.index (root_at sha256 (foot 0 u.copath) (inserted u s.log.size)) u.copath
    inserted_root = elim (Bool-cases u.real) [
      | inl r ↦ simp r (real_root-fold sha256 u.index 0 s.log.size u.copath u.seed is_checked.short)
      | inr r ↦ simp r (fake_root-fold sha256 u.index u.copath u.seed)
    ]

    different_key-inv :
        (next : Value)
        → different_key_root sha256 s u ≡ applied next
        → (s.log.size ≢ 0)
          × (fake_root sha256 u.index u.copath u.old_seed ≡ s.prefix_root)
          × ((if u.real
                then real_root sha256 u.index 0 s.log.size u.copath u.seed
                else fake_root sha256 u.index u.copath u.seed)
              ≡ next)
    unfolding different_key_root
    different_key-inv next e =
        let same = same_value-eq (fake_root sha256 u.index u.copath u.old_seed) s.prefix_root in
        (ground arith, same (ground arith), ground arith)

    different_key_root-Allowed :
        (next : Value)
        → u.proof ≡ different_key
        → different_key_root sha256 s u ≡ applied next
        → Allowed next
    unfolding fake_root
    different_key_root-Allowed next kind e =
        let (full, old, root) = different_key-inv next e in
        let start = sym (fold-folded sha256 0 u.index _ u.copath) ∙ old ∙ sym (rooted full) in
        elim (walk sha256 size 0 u.index (2 ∷ u.old_seed ++ (length u.copath + 255) % 256 ∷ [])
          u.copath t start) [
            | inl clash ↦ inl (inl clash)
            | inr f ↦
                let found = stand_in-only _ _ u.old_seed f.node f.same in
                grafted u.index _ u.copath (inserted u s.log.size) next
                  (inserts kind full (f.reached ∙ ap some found)) f (sym inserted_root ∙ root)
          ]

    same_key-inv :
        (next : Value)
        → same_key_root sha256 s u ≡ applied next
        → (s.log.size ≢ 0)
          × (fold sha256 0 u.index
                (prefix_leaf_hash sha256 u.index u.counter u.position)
                (pad_copath sha256 u.copath u.seed)
              ≡ s.prefix_root)
          × (fold sha256 0 u.index
                (prefix_leaf_hash sha256 u.index (u.counter + 1) u.position)
                (pad_copath sha256 u.copath u.seed)
              ≡ next)
    unfolding same_key_root
    same_key-inv next e =
        let same =
          same_value-eq
            (fold sha256 0 u.index (prefix_leaf_hash sha256 u.index u.counter u.position)
              (pad_copath sha256 u.copath u.seed))
            s.prefix_root in
        (ground arith, same (ground arith), ground arith)

    same_key_root-Allowed :
        (next : Value) → u.proof ≡ same_key → same_key_root sha256 s u ≡ applied next → Allowed next
    unfolding input_at
    same_key_root-Allowed next kind e =
        let (full, old, root) = same_key-inv next e in
        let path = pad_copath sha256 u.copath u.seed in
        let long : length path ≡ 256 = length-pad_copath sha256 u.copath u.seed is_checked.short in
        let start = sym (fold-folded sha256 0 u.index _ path) ∙ old ∙ sym (rooted full) in
        elim (walk sha256 size 0 u.index (0 ∷ leaf_bytes u.index u.counter u.position) path t
          start) [
            | inl clash ↦ inl (inr clash)
            | inr f ↦
                let found = leaf-only _ _ f.node f.same in
                let new = leaf (leaf_bytes u.index (u.counter + 1) u.position) in
                let reached =
                  ap (λ n. node_at 0 u.index n t) (sym long) ∙ f.reached ∙ ap some found in
                let step = counts kind full reached in
                grafted u.index _ path new next
                  (subst (λ n. Step s.log.size u t (graft 0 u.index n t new)) (sym long) step) f
                  root
          ]

    next_root-Allowed : (next : Value) → next_root sha256 s u ≡ applied next → Allowed next
    unfolding next_root
    next_root-Allowed next e = elim is_checked.kinds [
      | inl k ↦
          let is_new : (u.proof == new_tree) ≡ true = ground arith in
          new_tree_root-Allowed next k (simp is_new at e)
      | inr (inl k) ↦
          let is_old : (u.proof == new_tree) ≡ false = ground arith in
          let is_different : (u.proof == different_key) ≡ true = ground arith in
          different_key_root-Allowed next k (simp (is_old, is_different) at e)
      | inr (inr k) ↦
          let is_old : (u.proof == new_tree) ≡ false = ground arith in
          let is_same : (u.proof == different_key) ≡ false = ground arith in
          same_key_root-Allowed next k (simp (is_old, is_same) at e)
    ]

  pub advance-inv :
      (s after : State) (u : Update) (next : Value)
      → advance sha256 s u next ≡ applied after
      → (after.prefix_root ≡ next)
        × (append sha256 s.log (log_leaf_hash sha256 next u.commitment) ≡ Frontier.ok after.log)
  unfolding advance
  advance-inv s after u next e = ground arith

  -- An update that Apply accepts comes with a change of the tree that the protocol allows and that
  -- has the new prefix root, unless a node of its proof and the node of the tree at its place are
  -- hashed from different bytes to one hash; sha256 gives 32 bytes, and the tree has the state's
  -- prefix root where the log is not empty.
  pub apply-Step :
      (size : (x : List ℕ) → length (sha256 x) ≡ 32) (s after : State) (u : Update) (t : Tree)
      → IsTreeOf t s
      → apply sha256 s u ≡ applied after
      → ◌⊎◌ (ProofCollides u t) (
          (grown : Tree) × (Step s.log.size u t grown)
          × (root_at sha256 0 grown ≡ after.prefix_root)
          × (append sha256 s.log (log_leaf_hash sha256 after.prefix_root u.commitment)
              ≡ Frontier.ok after.log))
  unfolding apply
  apply-Step size s after u t rooted e =
      let (a, valid, e1) = and_then-applied (checked u) _ e in
      let (next, root, e2) = and_then-applied (next_root sha256 s u) (advance sha256 s u) e1 in
      let (same, logged) = advance-inv s after u next e2 in
      elim (next_root-Allowed size s u t rooted (checked-IsChecked u valid) next root) [
        | inl clash ↦ inl clash
        | inr (grown, step, r) ↦ inr (grown, step, r ∙ sym same, rw same logged)
      ]
