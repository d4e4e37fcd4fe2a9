-- ===== src/Signal/Consistency.antt =====
-- deriveRoot and verifyConsistency of internal/source/signal/logtree.go.
use kt_witness.Common.{
  ℕ, ◌≡◌, ◌≢◌, refl, ap, sym, ◌∙◌, Bool, true, false, ◌&&◌, ◌||◌, List, [], ◌∷◌, length, leb, ◌==◌,
  if◌then◌else◌, arith,
}
use kt_witness.Signal.Node.{Value}
use kt_witness.Signal.Numbering.{
  Outcome, Reason, stuck, rejects, gives, ◌>=>◌, bad_range, wrong_length, path_mismatch,
  not_reconstructed, not_extended, past_end, level, tree_root, full_subtrees,
  consistency_proof_nodes,
}
use kt_witness.Signal.Calculator.{Chain, insert, chain_root}

abbrev pub same_value : Value → Value → Bool
same_value [] [] = true
same_value (x ∷ v) (y ∷ w) = (x == y) && same_value v w
same_value _ _ = false

pub same_value-eq : (v w : Value) → same_value v w ≡ true → v ≡ w
same_value-eq [] [] h = refl
same_value-eq (x ∷ v) (y ∷ w) h =
    let tail = same_value-eq v w (ground arith) in
    let head : x ≡ y = ground arith in rw (head, tail) refl
same_value-eq [] (y ∷ w) h = cc
same_value-eq (x ∷ v) [] h = cc

same_value_refl : (v : Value) → same_value v v ≡ true
same_value_refl [] = refl
same_value_refl (x ∷ v) = ground (arith, same_value_refl v)

pub same_value-ne : (v w : Value) → same_value v w ≡ false → v ≢ w
same_value-ne v w differ same = ground (arith, same_value_refl v, same, differ)

-- What is left to read when the old tree is done: the chain, the node ids and their hashes.
abbrev pub Rest : Type 0
Rest = Chain × List ℕ × List Value

gives-of_chain :
    {A B : Type 0} {b : B} (next : A → Outcome B) (one : Outcome A)
    → (one >=> next) ≡ gives b
    → (v : A) × (one ≡ gives v) × (next v ≡ gives b)
gives-of_chain next stuck e = cc
gives-of_chain next (rejects why) e = cc
gives-of_chain next (gives v) e = (v, refl, e)

module _ (sha256 : List ℕ → Value) where
  -- The loop over the full subtrees of the old tree, which the proof begins with.
  old_part : List ℕ → Rest → Outcome Rest
  old_part [] rest = gives rest
  old_part (elem ∷ path) (chain, [], hashes) = rejects path_mismatch
  old_part (elem ∷ path) (chain, id ∷ ids, []) = rejects past_end
  old_part (elem ∷ path) (chain, id ∷ ids, h ∷ hashes) =
      let more = old_part path (insert sha256 (level elem) h chain, ids, hashes) in
      if id == elem then more else rejects path_mismatch

  checked : Value → Rest → Outcome Rest
  checked old_root rest = chain_root sha256 rest.0 >=> λ got.
      if same_value got old_root then gives rest else rejects not_reconstructed

  witnessed : ℕ → Value → List ℕ → List ℕ → List Value → Outcome Rest
  unfolding old_part checked
  witnessed m old_root path ids proof =
      if length path == 1
      then gives (insert sha256 (level (tree_root m)) old_root [], ids, proof)
      else (old_part path ([], ids, proof) >=> λ rest. checked old_root rest)

  new_part : Chain → List ℕ → List Value → Outcome Chain
  new_part chain [] hashes = gives chain
  new_part chain (id ∷ ids) [] = rejects past_end
  new_part chain (id ∷ ids) (h ∷ hashes) = new_part (insert sha256 (level id) h chain) ids hashes

  extended : Rest → Outcome Value
  unfolding new_part
  extended (chain, ids, hashes) = new_part chain ids hashes >=> λ all. chain_root sha256 all

  unfoldable pub derive_root : ℕ → ℕ → List Value → Value → Outcome Value
  unfolding witnessed extended
  derive_root m n proof old_root =
      if (m == 0) || leb n m
      then rejects bad_range
      else (consistency_proof_nodes m n >=> λ ids.
          if length proof == length ids
          then (full_subtrees (tree_root m) m >=> λ path.
              witnessed m old_root path ids proof >=> λ rest. extended rest)
          else rejects wrong_length)

  unfoldable pub verify_consistency : ℕ → ℕ → List Value → Value → Value → Outcome (Unit {0})
  unfolding derive_root
  verify_consistency m n proof old_root new_root = derive_root m n proof old_root >=> λ got.
      if same_value got new_root then gives tt else rejects not_extended

  if-gives :
      {A : Type 0} (b : Bool) (x : A) (why : Reason) {v : A}
      → (if b then gives x else rejects why) ≡ gives v
      → (b ≡ true) × (x ≡ v)
  if-gives true x why h = (refl, ground arith)
  if-gives false x why h = cc

  checked-root :
      (r : Value) (c : Rest) {a : Rest}
      → checked r c ≡ gives a
      → (chain_root sha256 c.0 ≡ gives r) × (c ≡ a)
  unfolding checked
  checked-root r c h =
      let (got, root, accepted) = gives-of_chain _ (chain_root sha256 c.0) h in
      let (same, kept) = if-gives (same_value got r) c not_reconstructed accepted in
      (root ∙ ap gives (same_value-eq got r same), kept)

  gives-injective : {A : Type 0} {x y : A} → ◌≡◌ {A = Outcome A} (gives x) (gives y) → x ≡ y
  gives-injective h = ground arith

  witnessed-root :
      (m : ℕ) (r r' : Value) (path ids : List ℕ) (proof : List Value) {a b : Rest}
      → (length path == 1) ≡ false
      → witnessed m r path ids proof ≡ gives a
      → witnessed m r' path ids proof ≡ gives b
      → (r ≡ r') × (a ≡ b)
  unfolding witnessed
  witnessed-root m r r' path ids proof several one two =
      let (c, read, check) =
        gives-of_chain _ (old_part path ([], ids, proof)) (rw several at one) in
      let (c', read', check') =
        gives-of_chain _ (old_part path ([], ids, proof)) (rw several at two) in
      let same : c ≡ c' = gives-injective (sym read ∙ read') in
      let (root, kept) = checked-root r c check in
      let (root', kept') = checked-root r' c' check' in
      (
        gives-injective (sym root ∙ ap (λ (x : Rest). chain_root sha256 x.0) same ∙ root'),
        sym kept ∙ same ∙ kept',
      )

  -- What an accepted proof went through.
  record Accepted (m n : ℕ) (proof : List Value) (r s : Value) : Type 0 where
    ids : List ℕ
    path : List ℕ
    rest : Rest
    nodes : consistency_proof_nodes m n ≡ gives ids
    subtrees : full_subtrees (tree_root m) m ≡ gives path
    old : witnessed m r path ids proof ≡ gives rest
    new : extended rest ≡ gives s

  if-else :
      {A : Type 0} (b : Bool) (x : Outcome A) (why : Reason) {v : A}
      → (if b then x else rejects why) ≡ gives v
      → x ≡ gives v
  if-else true x why h = h
  if-else false x why h = cc

  if-then :
      {A : Type 0} (b : Bool) (x : Outcome A) (why : Reason) {v : A}
      → (if b then rejects why else x) ≡ gives v
      → x ≡ gives v
  if-then false x why h = h
  if-then true x why h = cc

  verify_consistency-Accepted :
      (m n : ℕ) (proof : List Value) (r s : Value)
      → verify_consistency m n proof r s ≡ gives tt
      → Accepted m n proof r s
  unfolding verify_consistency derive_root
  verify_consistency-Accepted m n proof r s h =
      let (got, derived, compared) = gives-of_chain _ (derive_root m n proof r) h in
      let (same, _) = if-gives (same_value got s) tt not_extended compared in
      let in_range = if-then ((m == 0) || leb n m) _ bad_range derived in
      let (ids, nodes, sized) = gives-of_chain _ (consistency_proof_nodes m n) in_range in
      let full = if-else (length proof == length ids) _ wrong_length sized in
      let (path, subtrees, staged) = gives-of_chain _ (full_subtrees (tree_root m) m) full in
      let (rest, old, new) = gives-of_chain _ (witnessed m r path ids proof) staged in
      record {
        ids = ids;
        path = path;
        rest = rest;
        nodes = nodes;
        subtrees = subtrees;
        old = old;
        new = new ∙ ap gives (same_value-eq got s same);
      }

  -- Where the old tree is more than one full subtree, a proof that verifyConsistency accepts fixes
  -- both roots: it is accepted for no other root of the old size, and for no other root of the new.
  pub verify_consistency_fixes_roots :
      (m n : ℕ) (proof : List Value) (r r' s s' : Value) (path : List ℕ)
      → full_subtrees (tree_root m) m ≡ gives path
      → (length path == 1) ≡ false
      → verify_consistency m n proof r s ≡ gives tt
      → verify_consistency m n proof r' s' ≡ gives tt
      → (r ≡ r') × (s ≡ s')
  verify_consistency_fixes_roots m n proof r r' s s' path several more one two =
      let x = verify_consistency-Accepted m n proof r s one in
      let y = verify_consistency-Accepted m n proof r' s' two in
      let ids : x.ids ≡ y.ids = gives-injective (sym x.nodes ∙ y.nodes) in
      let path_x : x.path ≡ path = gives-injective (sym x.subtrees ∙ several) in
      let path_y : y.path ≡ path = gives-injective (sym y.subtrees ∙ several) in
      let old_x : witnessed m r path y.ids proof ≡ gives x.rest = rw (← path_x, ← ids) x.old in
      let old_y : witnessed m r' path y.ids proof ≡ gives y.rest = rw (← path_y) y.old in
      let (roots, rests) = witnessed-root m r r' path y.ids proof more old_x old_y in
      (roots, gives-injective (sym x.new ∙ ap extended rests ∙ y.new))
