-- ===== src/SignalAudit/Walk.antt =====
-- What the hash of a proof says of the tree that has the same root hash.
use kt_witness.Common.{
  ℕ, suc, ◌+◌, ◌≡◌, ◌≢◌, refl, ap, sym, ◌∙◌, List, [], ◌∷◌, ◌++◌, length, some, ◌==◌, if◌then◌else◌,
  ◌⊎◌, inl, inr, true, false, Bool-cases, arith, ∷-split, append-split, length-append,
}
use kt_witness.Signal.Node.{Value}
use kt_witness.Signal.Consistency.{same_value, same_value-eq, same_value-ne}
use kt_witness.Signal.Prefix.{bit}
use kt_witness.SignalAudit.State.{fold}
use kt_witness.SignalAudit.Tree.{
  Tree, stand_in, leaf, branch, node_at, graft, input_at, root_at, Clash, folded, Collides,
}

-- The depth where a proof that starts at depth d ends.
abbrev pub foot : ℕ → List Value → ℕ
foot d [] = d
foot d (c ∷ copath) = foot (suc d) copath

pub foot-length : (d : ℕ) (copath : List Value) → foot d copath ≡ d + length copath
foot-length d [] = omega arith
foot-length d (c ∷ copath) = omega (arith, foot-length (suc d) copath)

module _ (sha256 : List ℕ → Value) where
  pub fold-folded :
      (d : ℕ) (index input : List ℕ) (copath : List Value)
      → fold sha256 d index (sha256 input) copath ≡ sha256 (folded sha256 d index input copath)
  unfolding fold folded
  fold-folded d index input [] = refl
  fold-folded d index input (c ∷ copath) =
      let below = fold-folded (suc d) index input copath in
      elim (Bool-cases (bit index d == 0)) [
        | inl e ↦ rw (e, below) refl
        | inr e ↦ rw (e, below) refl
      ]

  hash_cases : (x y : List ℕ) → sha256 x ≡ sha256 y → ◌⊎◌ (Clash sha256 x y) (x ≡ y)
  hash_cases x y h = elim (Bool-cases (same_value x y)) [
    | inl e ↦ inr (same_value-eq x y e)
    | inr e ↦ inl (same_value-ne x y e, h)
  ]

  -- A proof whose siblings are those of a node of the tree.
  pub record Follows (d : ℕ) (index input : List ℕ) (copath : List Value) (t : Tree) : Type 0 where
    pub node : Tree
    pub reached : node_at d index (length copath) t ≡ some node
    pub same : input ≡ input_at sha256 (foot d copath) node
    pub replaced :
        (new : Tree)
        → folded sha256 d index (input_at sha256 (foot d copath) new) copath
          ≡ input_at sha256 d (graft d index (length copath) t new)

  module _ (size : (x : List ℕ) → length (sha256 x) ≡ 32) where
    kinds_differ :
        (d : ℕ) (index input : List ℕ) (c : Value) (copath : List Value) (tag : ℕ) (rest : List ℕ)
        → tag ≢ 1
        → folded sha256 d index input (c ∷ copath) ≢ tag ∷ rest
    unfolding folded
    kinds_differ d index input c copath tag rest differs e = elim (Bool-cases (bit index d == 0)) [
      | inl b ↦ differs (∷-split (sym (simp b at e))).0
      | inr b ↦ differs (∷-split (sym (simp b at e))).0
    ]

    left_of :
        (d : ℕ) (index input : List ℕ) (c : Value) (copath : List Value) (l r : Tree)
        → (bit index d == 0) ≡ true
        → folded sha256 d index input (c ∷ copath) ≡ input_at sha256 d (branch l r)
        → (sha256 (folded sha256 (suc d) index input copath) ≡ root_at sha256 (suc d) l)
          × (c ≡ root_at sha256 (suc d) r)
    unfolding folded input_at
    left_of d index input c copath l r b e =
        append-split _ _ _ _ (size _ ∙ sym (size _)) (∷-split (simp b at e)).1

    right_of :
        (d : ℕ) (index input : List ℕ) (c : Value) (copath : List Value) (l r : Tree)
        → (bit index d == 0) ≡ false
        → folded sha256 d index input (c ∷ copath) ≡ input_at sha256 d (branch l r)
        → (sha256 (folded sha256 (suc d) index input copath) ≡ root_at sha256 (suc d) r)
          × (c ≡ root_at sha256 (suc d) l)
    unfolding folded input_at
    right_of d index input c copath l r b e =
        let tails = (∷-split (simp b at e)).1 in
        let below = sha256 (folded sha256 (suc d) index input copath) in
        let short : length c ≡ length (root_at sha256 (suc d) l) = omega (
          arith,
          ap length tails,
          length-append c below,
          length-append (root_at sha256 (suc d) l) (root_at sha256 (suc d) r),
          size (folded sha256 (suc d) index input copath),
          size (input_at sha256 (suc d) r),
        ) in
        let (p, q) = append-split c (root_at sha256 (suc d) l) _ _ short tails in (q, p)

    above_left :
        (d : ℕ) (index input : List ℕ) (c : Value) (copath : List Value) (l r : Tree)
        → (bit index d == 0) ≡ true
        → c ≡ root_at sha256 (suc d) r
        → ◌⊎◌ (Collides sha256 (suc d) index input copath l) (Follows (suc d) index input copath l)
        → ◌⊎◌
            (Collides sha256 d index input (c ∷ copath) (branch l r))
            (Follows d index input (c ∷ copath) (branch l r))
    unfolding folded input_at node_at graft Collides
    above_left d index input c copath l r b q (inl clash) = inl (inr (simp b clash))
    above_left d index input c copath l r b q (inr f) = inr (record {
      node = f.node;
      reached = ap (λ v. node_at (suc d) index (length copath) (if v then l else r)) b ∙ f.reached;
      same = f.same;
      replaced = λ new. simp b (
          ap (λ v. 1 ∷ v ++ c) (ap sha256 (f.replaced new))
          ∙ ap (λ v. 1 ∷ root_at sha256 (suc d) (graft (suc d) index (length copath) l new) ++ v)
              q);
    })

    above_right :
        (d : ℕ) (index input : List ℕ) (c : Value) (copath : List Value) (l r : Tree)
        → (bit index d == 0) ≡ false
        → c ≡ root_at sha256 (suc d) l
        → ◌⊎◌ (Collides sha256 (suc d) index input copath r) (Follows (suc d) index input copath r)
        → ◌⊎◌
            (Collides sha256 d index input (c ∷ copath) (branch l r))
            (Follows d index input (c ∷ copath) (branch l r))
    unfolding folded input_at node_at graft Collides
    above_right d index input c copath l r b q (inl clash) = inl (inr (simp b clash))
    above_right d index input c copath l r b q (inr f) = inr (record {
      node = f.node;
      reached = ap (λ v. node_at (suc d) index (length copath) (if v then l else r)) b ∙ f.reached;
      same = f.same;
      replaced = λ new. simp b (
          ap
            (λ v.
              1 ∷ v
              ++ sha256
                  (folded sha256 (suc d) index (input_at sha256 (foot d (c ∷ copath)) new) copath))
            q
          ∙ ap (λ v. 1 ∷ root_at sha256 (suc d) l ++ v) (ap sha256 (f.replaced new)));
    })

    pub walk :
        (d : ℕ) (index input : List ℕ) (copath : List Value) (t : Tree)
        → sha256 (folded sha256 d index input copath) ≡ root_at sha256 d t
        → ◌⊎◌ (Collides sha256 d index input copath t) (Follows d index input copath t)
    unfolding folded Collides node_at graft input_at
    walk d index input [] t h = elim (hash_cases input (input_at sha256 d t) h) [
      | inl clash ↦ inl clash
      | inr same ↦ inr (record { node = t; reached = refl; same = same; replaced = λ new. refl })
    ]
    walk d index input (c ∷ copath) (stand_in seed) h =
        let same = hash_cases (folded sha256 d index input (c ∷ copath)) _ h in
        elim same [
          | inl clash ↦ inl clash
          | inr e ↦ absurd (kinds_differ d index input c copath 2 _ (omega arith) e)
        ]
    walk d index input (c ∷ copath) (leaf bytes) h =
        let same = hash_cases (folded sha256 d index input (c ∷ copath)) _ h in
        elim same [
          | inl clash ↦ inl clash
          | inr e ↦ absurd (kinds_differ d index input c copath 0 _ (omega arith) e)
        ]
    walk d index input (c ∷ copath) (branch l r) h =
        elim (hash_cases (folded sha256 d index input (c ∷ copath)) _ h) [
          | inl clash ↦ inl (inl clash)
          | inr e ↦ elim (Bool-cases (bit index d == 0)) [
            | inl b ↦
                let (p, q) = left_of d index input c copath l r b e in
                above_left d index input c copath l r b q (walk (suc d) index input copath l p)
            | inr b ↦
                let (p, q) = right_of d index input c copath l r b e in
                above_right d index input c copath l r b q (walk (suc d) index input copath r p)
          ]
        ]
