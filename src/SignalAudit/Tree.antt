-- ===== src/SignalAudit/Tree.antt =====
-- The prefix tree that internal/signalaudit/state.go keeps only the root hash of, and what an update
-- may do to it.
use kt_witness.Common.{
  ℕ, zero, suc, ◌+◌, ◌%◌, ◌≡◌, ◌≢◌, List, [], ◌∷◌, ◌++◌, length, Option, none, some, ◌==◌,
  if◌then◌else◌, ◌⊎◌, ◌-◌,
}
use kt_witness.Signal.Node.{Value}
use kt_witness.Signal.Prefix.{bit, leaf_bytes}
use kt_witness.SignalAudit.Update.{Update, new_tree, different_key, same_key}

-- A stand-in hides an unexplored subtree behind its seed; a leaf has the bytes that its hash is of.
pub data Tree : Type 0 where
  stand_in leaf : List ℕ → Tree
  branch : Tree → Tree → Tree

-- The subtree n steps down the path of an index, from depth d.
unfoldable pub node_at : ℕ → List ℕ → ℕ → Tree → Option Tree
node_at d index zero t = some t
node_at d index (suc n) (stand_in seed) = none
node_at d index (suc n) (leaf bytes) = none
node_at d index (suc n) (branch l r) = node_at (suc d) index n (if bit index d == 0 then l else r)

-- The tree with that subtree replaced.
unfoldable pub graft : ℕ → List ℕ → ℕ → Tree → Tree → Tree
graft d index zero t new = new
graft d index (suc n) (stand_in seed) new = stand_in seed
graft d index (suc n) (leaf bytes) new = leaf bytes
graft d index (suc n) (branch l r) new =
    let left = graft (suc d) index n l new in
    let right = graft (suc d) index n r new in
    if bit index d == 0 then branch left r else branch l right

-- The path of an index down to a leaf n levels below depth d, with stand-ins beside it.
unfoldable pub fresh : ℕ → ℕ → List ℕ → List ℕ → List ℕ → Tree
fresh d zero index seed bytes = leaf bytes
fresh d (suc n) index seed bytes =
    let below = fresh (suc d) n index seed bytes in
    if bit index d == 0 then branch below (stand_in seed) else branch (stand_in seed) below

-- A fresh subtree for an index, or another stand-in where the update is a fake.
abbrev pub inserted : Update → ℕ → Tree
inserted u pos =
    if u.real
    then fresh (length u.copath) (256 - length u.copath) u.index u.seed (leaf_bytes u.index 0 pos)
    else stand_in u.seed

-- What an update to a log of `pos` entries may make of the tree.
pub data Step (pos : ℕ) (u : Update) (t : Tree) : Tree → Type 0 where
  starts :
      u.proof ≡ new_tree
      → pos ≡ 0
      → Step pos u t (fresh 0 256 u.index u.seed (leaf_bytes u.index 0 0))
  inserts :
      u.proof ≡ different_key
      → pos ≢ 0
      → node_at 0 u.index (length u.copath) t ≡ some (stand_in u.old_seed)
      → Step pos u t (graft 0 u.index (length u.copath) t (inserted u pos))
  counts :
      u.proof ≡ same_key
      → pos ≢ 0
      → node_at 0 u.index 256 t ≡ some (leaf (leaf_bytes u.index u.counter u.position))
      → Step pos u t (graft 0 u.index 256 t (leaf (leaf_bytes u.index (u.counter + 1) u.position)))

module _ (sha256 : List ℕ → Value) where
  -- What the hash of a tree at a depth is of. The level of a stand-in is its depth less one, as a
  -- uint8.
  unfoldable pub input_at : ℕ → Tree → List ℕ
  input_at d (stand_in seed) = 2 ∷ seed ++ (d + 255) % 256 ∷ []
  input_at d (leaf bytes) = 0 ∷ bytes
  input_at d (branch l r) = 1 ∷ sha256 (input_at (suc d) l) ++ sha256 (input_at (suc d) r)

  abbrev pub root_at : ℕ → Tree → Value
  root_at d t = sha256 (input_at d t)

  -- Two byte strings of the same hash.
  abbrev pub Clash : List ℕ → List ℕ → Type 0
  Clash x y = (x ≢ y) × (sha256 x ≡ sha256 y)

  -- What the hash of a node of a proof is of, where the node that it starts from is hashed from
  -- `input`.
  unfoldable pub folded : ℕ → List ℕ → List ℕ → List Value → List ℕ
  folded d index input [] = input
  folded d index input (c ∷ copath) =
      let below = sha256 (folded (suc d) index input copath) in
      if bit index d == 0 then 1 ∷ below ++ c else 1 ∷ c ++ below

  -- A node of a proof and the node of the tree at its depth, hashed from different bytes to one hash.
  unfoldable pub Collides : ℕ → List ℕ → List ℕ → List Value → Tree → Type 0
  Collides d index input [] t = Clash input (input_at d t)
  Collides d index input (c ∷ copath) (stand_in seed) =
      Clash (folded d index input (c ∷ copath)) (input_at d (stand_in seed))
  Collides d index input (c ∷ copath) (leaf bytes) =
      Clash (folded d index input (c ∷ copath)) (input_at d (leaf bytes))
  Collides d index input (c ∷ copath) (branch l r) =
      ◌⊎◌ (Clash (folded d index input (c ∷ copath)) (input_at d (branch l r)))
        (Collides (suc d) index input copath (if bit index d == 0 then l else r))
