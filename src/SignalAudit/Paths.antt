-- ===== src/SignalAudit/Paths.antt =====
-- The root hashes that internal/signalaudit/state.go computes, as those of a changed tree.
use kt_witness.Common.{
  ℕ, zero, suc, ◌+◌, ◌-◌, ◌%◌, ◌≡◌, ◌≤◌, refl, ap, sym, ◌∙◌, List, [], ◌∷◌, ◌++◌, length, take,
  ◌==◌, inl, inr, Bool-cases, arith, length-append,
}
use kt_witness.Signal.Node.{Value}
use kt_witness.Signal.Prefix.{bit, leaf_bytes, prefix_stand_in_hash, prefix_leaf_hash}
use kt_witness.SignalAudit.State.{fold, pad, pad_copath, real_root, fake_root}
use kt_witness.SignalAudit.Tree.{Tree, stand_in, graft, fresh, input_at, root_at}
use kt_witness.SignalAudit.Walk.{foot, foot-length, fold-folded, Follows}

take-all : (n : ℕ) (l : List Value) → length l ≤ n → take n l ≡ l
take-all zero [] h = refl
take-all zero (x ∷ l) h = absurd (omega arith)
take-all (suc n) [] h = refl
take-all (suc n) (x ∷ l) h = ap (λ m. x ∷ m) (take-all n l (omega arith))

module _ (sha256 : List ℕ → Value) where
  pub length-pad : (n level : ℕ) (seed : List ℕ) → length (pad sha256 n level seed) ≡ n
  unfolding pad
  length-pad zero level seed = refl
  length-pad (suc n) level seed = ap suc (length-pad n (suc level) seed)

  pub pad_copath-all :
      (copath : List Value) (seed : List ℕ)
      → length copath ≤ 256
      → pad_copath sha256 copath seed
        ≡ copath ++ pad sha256 (256 - length copath) (length copath) seed
  unfolding pad_copath
  pad_copath-all copath seed h =
      ap (λ l. l ++ pad sha256 (256 - length copath) (length copath) seed) (take-all 256 copath h)

  pub length-pad_copath :
      (copath : List Value) (seed : List ℕ)
      → length copath ≤ 256
      → length (pad_copath sha256 copath seed) ≡ 256
  length-pad_copath copath seed h = omega (
    arith,
    ap length (pad_copath-all copath seed h),
    length-append copath (pad sha256 (256 - length copath) (length copath) seed),
    length-pad (256 - length copath) (length copath) seed,
  )

  pub fold-append :
      (d : ℕ) (index : List ℕ) (value : Value) (copath path : List Value)
      → fold sha256 d index value (copath ++ path)
        ≡ fold sha256 d index (fold sha256 (foot d copath) index value path) copath
  unfolding fold
  fold-append d index value [] path = refl
  fold-append d index value (c ∷ copath) path =
      rw (fold-append (suc d) index value copath path) refl

  stand_in_hash-root_at :
      (d : ℕ) (seed : List ℕ)
      → prefix_stand_in_hash sha256 seed d ≡ root_at sha256 (suc d) (stand_in seed)
  unfolding input_at
  stand_in_hash-root_at d seed =
      let level : d % 256 ≡ (suc d + 255) % 256 = omega arith in
      ap (λ l. sha256 (2 ∷ seed ++ l ∷ [])) level

  fold-pad :
      (d n : ℕ) (index seed bytes : List ℕ)
      → fold sha256 d index (sha256 (0 ∷ bytes)) (pad sha256 n d seed)
        ≡ root_at sha256 d (fresh d n index seed bytes)
  unfolding fold pad fresh input_at
  fold-pad d zero index seed bytes = refl
  fold-pad d (suc n) index seed bytes = elim (Bool-cases (bit index d == 0)) [
    | inl e ↦ simp e (rw (fold-pad (suc d) n index seed bytes, stand_in_hash-root_at d seed) refl)
    | inr e ↦ simp e (rw (fold-pad (suc d) n index seed bytes, stand_in_hash-root_at d seed) refl)
  ]

  -- A leaf below the end of a copath.
  pub real_root-fold :
      (index : List ℕ) (ctr pos : ℕ) (copath : List Value) (seed : List ℕ)
      → length copath ≤ 256
      → real_root sha256 index ctr pos copath seed
        ≡ fold sha256 0 index
            (root_at sha256
              (foot 0 copath)
              (fresh (length copath) (256 - length copath) index seed (leaf_bytes index ctr pos)))
            copath
  unfolding real_root
  real_root-fold index ctr pos copath seed h =
      let depth : length copath ≡ foot 0 copath = omega (arith, foot-length 0 copath) in
      ap (fold sha256 0 index (prefix_leaf_hash sha256 index ctr pos))
        (pad_copath-all copath seed h)
      ∙ fold-append 0 index (prefix_leaf_hash sha256 index ctr pos) copath _
      ∙ ap (λ v. fold sha256 0 index v copath)
          (ap
              (λ d.
                fold sha256 d index (prefix_leaf_hash sha256 index ctr pos)
                  (pad sha256 (256 - length copath) (length copath) seed))
              (sym depth)
            ∙ fold-pad (length copath) (256 - length copath) index seed (leaf_bytes index ctr pos)
            ∙ ap
                (λ d. root_at sha256 d (
                  fresh (length copath) (256 - length copath) index seed
                    (leaf_bytes index ctr pos)))
                depth)

  pub fake_root-fold :
      (index : List ℕ) (copath : List Value) (seed : List ℕ)
      → fake_root sha256 index copath seed
        ≡ fold sha256 0 index (root_at sha256 (foot 0 copath) (stand_in seed)) copath
  unfolding fake_root input_at
  fake_root-fold index copath seed =
      let depth : length copath ≡ foot 0 copath = omega (arith, foot-length 0 copath) in
      ap (λ d. fold sha256 0 index (sha256 (2 ∷ seed ++ (d + 255) % 256 ∷ [])) copath) depth

  -- Where a proof follows a tree, the fold from a new node is the root of the grafted tree.
  pub fold-graft :
      (index input : List ℕ) (copath : List Value) (t new : Tree)
      → Follows sha256 0 index input copath t
      → fold sha256 0 index (root_at sha256 (foot 0 copath) new) copath
        ≡ root_at sha256 0 (graft 0 index (length copath) t new)
  fold-graft index input copath t new f =
      fold-folded sha256 0 index (input_at sha256 (foot 0 copath) new) copath
      ∙ ap sha256 (f.replaced new)
