-- ===== src/Signal/Frontier/Refinement.antt =====
-- The frontier against the tree: whatever leaves are appended, it holds the full subtrees of the
-- left-balanced tree over them, and Root is the root of that tree.
use mathlib.Core.List.{append_assoc, append-nil}
use kt_witness.Common.{
  ℕ, suc, ◌+◌, ◌*◌, ◌%◌, ◌^◌, ◌-◌, ◌<◌, ◌≡◌, refl, ap, sym, subst, ◌∙◌, true, false, List, [], ◌∷◌,
  ◌++◌, length, ltb, ◌==◌, ==_iff, lt→ltb, arith, length-append,
}
use kt_witness.Signal.Node.{Value, Node}
use kt_witness.Signal.Frontier.{
  LogFrontier, Result, ok, empty, ones_count, append, append_all, fold_up, root_of, root,
  new_log_frontier,
}
use kt_witness.Signal.Frontier.Tree.{
  Tree, leaf, branch, leaves, node_of, IsFull, full_leaf, IsLeftBalanced, full, grown,
  interior-IsFull, length-IsFull, two_pow_pos,
}
use kt_witness.Signal.Frontier.Stack.{
  Stack, done, even, odd, all_leaves, values, length-Stack, length-values, carry_up-Stack,
}

module _ (sha256 : List ℕ → Value) where
  -- The frontier stands for these leaves.
  pub record Holds (f : LogFrontier) (log : List Value) : Type 0 where
    pub trees : List Tree
    pub stack : Stack 0 f.size trees
    pub values_of : f.subtrees ≡ values sha256 trees
    pub leaves_of : all_leaves trees ≡ log

  pub Holds-empty : Holds empty []
  Holds-empty = record { trees = []; stack = done 0; values_of = refl; leaves_of = refl }

  pub append-Holds :
      (f : LogFrontier) (log : List Value) (v : Value)
      → Holds f log
      → f.size < 2 ^ 64 - 1
      → (g : LogFrontier) × (append sha256 f v ≡ ok g)
        × (g.size ≡ f.size + 1)
        × Holds g (log ++ v ∷ [])
  unfolding append
  append-Holds f log v h small =
      let (ts, run, stack, all) =
        carry_up-Stack sha256 0 f.size h.trees (leaf v) h.stack (full_leaf v) in
      let room : (f.size == 2 ^ 64 - 1) ≡ false = ground arith in
      (
        record { size = f.size + 1; subtrees = values sha256 ts },
        rw (room, h.values_of, run) refl,
        refl,
        record {
          trees = ts;
          stack = stack;
          values_of = refl;
          leaves_of = all ∙ ap (λ l. l ++ v ∷ []) h.leaves_of;
        },
      )

  append_all-Holds :
      (f : LogFrontier) (log more : List Value)
      → Holds f log
      → f.size + length more < 2 ^ 64
      → (g : LogFrontier) × (append_all sha256 f more ≡ ok g)
        × (g.size ≡ f.size + length more)
        × Holds g (log ++ more)
  unfolding append_all
  append_all-Holds f log [] h small =
      (f, refl, omega arith, subst (Holds f) (sym (append-nil log)) h)
  append_all-Holds f log (v ∷ more) h small =
      let (g, one, size, h') = append-Holds f log v h (omega arith) in
      let (g', rest, size', h'') = append_all-Holds g (log ++ v ∷ []) more h' (omega arith) in
      (
        g',
        rw (one, append_all) rest,
        omega arith,
        subst (Holds g') (append_assoc log (v ∷ []) more) h'',
      )

  -- The fold of Root, over trees.
  abbrev spine : Tree → List Tree → Tree
  spine acc [] = acc
  spine acc (t ∷ ts) = spine (branch t acc) ts

  fold_up-spine :
      (lvl s : ℕ) (acc : Tree) (ts : List Tree)
      → Stack (suc lvl) s ts
      → fold_up sha256 (node_of sha256 acc) (values sha256 ts) ≡ node_of sha256 (spine acc ts)
  unfolding fold_up
  fold_up-spine lvl s acc ts (done _) = refl
  fold_up-spine lvl s acc ts (even _ s' _ st) = fold_up-spine (suc lvl) s' acc ts st
  fold_up-spine lvl s acc ts (odd _ s' t ts' f st) =
      let whole : record { interior = true; value = (node_of sha256 t).value } ≡ node_of sha256 t =
        ap (λ b. record { interior = b; value = (node_of sha256 t).value })
          (sym (interior-IsFull sha256 (suc lvl) t f ∙ lt→ltb 0 (suc lvl) (omega arith))) in
      rw (fold_up, whole) (fold_up-spine (suc lvl) s' (branch t acc) ts' st)

  spine-IsLeftBalanced :
      (lvl s : ℕ) (acc : Tree) (ts : List Tree)
      → Stack lvl s ts
      → IsLeftBalanced acc
      → length (leaves acc) < 2 ^ lvl
      → IsLeftBalanced (spine acc ts)
  spine-IsLeftBalanced lvl s acc ts (done _) b h = b
  spine-IsLeftBalanced lvl s acc ts (even _ s' _ st) b h =
      spine-IsLeftBalanced (suc lvl) s' acc ts st b (omega arith)
  spine-IsLeftBalanced lvl s acc ts (odd _ s' t ts' f st) b h =
      spine-IsLeftBalanced (suc lvl) s' (branch t acc) ts' st (grown lvl t acc f b h)
        (omega (arith, length-append (leaves t) (leaves acc), length-IsFull lvl t f))

  leaves-spine : (acc : Tree) (ts : List Tree) → leaves (spine acc ts) ≡ all_leaves ts ++ leaves acc
  leaves-spine acc [] = refl
  leaves-spine acc (t ∷ ts) =
      leaves-spine (branch t acc) ts ∙ sym (append_assoc (all_leaves ts) (leaves t) (leaves acc))

  -- What Root finds in a stack that is not empty.
  pub IsRoot : Result Value → List Value → Type 0
  IsRoot r log =
      (t : Tree) × IsLeftBalanced t × (leaves t ≡ log) × (r ≡ ok (node_of sha256 t).value)

  root_of-first :
      (lvl s size : ℕ) (t : Tree) (ts : List Tree)
      → IsFull lvl t
      → Stack (suc lvl) s ts
      → (size % 2 == 0) ≡ ltb 0 lvl
      → IsRoot (root_of sha256 size (values sha256 (t ∷ ts))) (all_leaves (t ∷ ts))
  unfolding root_of IsRoot
  root_of-first lvl s size t ts f st e = (
    spine t ts,
    spine-IsLeftBalanced (suc lvl) s t ts st (full lvl t f)
        (omega (arith, length-IsFull lvl t f, two_pow_pos lvl)),
    leaves-spine t ts,
    rw (e, sym (interior-IsFull sha256 lvl t f))
        (ap (λ (n : Node). ok n.value) (fold_up-spine lvl s t ts st)),
  )

  root_of-high :
      (lvl s size : ℕ) (ts : List Tree)
      → Stack (suc lvl) s ts
      → (size % 2 == 0) ≡ true
      → 0 < s
      → IsRoot (root_of sha256 size (values sha256 ts)) (all_leaves ts)
  root_of-high lvl s size ts (done _) e h = absurd (omega arith)
  root_of-high lvl s size ts (even _ s' _ st) e h =
      root_of-high (suc lvl) s' size ts st e (omega arith)
  root_of-high lvl s size ts (odd _ s' t ts' f st) e h =
      root_of-first (suc lvl) s' size t ts' f st (e ∙ sym (lt→ltb 0 (suc lvl) (omega arith)))

  root_of-Stack :
      (size : ℕ) (ts : List Tree)
      → Stack 0 size ts
      → 0 < size
      → IsRoot (root_of sha256 size (values sha256 ts)) (all_leaves ts)
  root_of-Stack size ts (done _) h = absurd (omega arith)
  root_of-Stack size ts (even _ s' _ st) h =
      root_of-high 0 s' (2 * s') ts st (ground arith) (omega arith)
  root_of-Stack size ts (odd _ s' t ts' f st) h =
      root_of-first 0 s' (2 * s' + 1) t ts' f st (ground arith)

  pub root-Holds :
      (f : LogFrontier) (log : List Value) → Holds f log → 0 < f.size → IsRoot (root sha256 f) log
  unfolding root
  root-Holds f log h positive =
      let nonempty : (f.size == 0) ≡ false = ground arith in
      rw (nonempty, h.values_of)
        (subst (IsRoot (root_of sha256 f.size (values sha256 h.trees))) h.leaves_of
          (root_of-Stack f.size h.trees h.stack positive))

  -- Appending the leaves of a log one by one, fewer than 2 ^ 64 and at least one, never fails, and
  -- Root is then the root of a left-balanced tree over exactly those leaves in their order.
  pub root-append_all :
      (v : Value) (log : List Value)
      → length (v ∷ log) < 2 ^ 64
      → (f : LogFrontier) × (append_all sha256 empty (v ∷ log) ≡ ok f)
        × ((t : Tree) × IsLeftBalanced t
            × (leaves t ≡ v ∷ log)
            × (root sha256 f ≡ ok (node_of sha256 t).value))
  unfolding IsRoot
  root-append_all v log small =
      let (f, run, size, h) = append_all-Holds empty [] (v ∷ log) Holds-empty (omega arith) in
      (f, run, root-Holds f (v ∷ log) h (omega arith))

  -- What Subtrees and Size give of a frontier that any log has led to, NewLogFrontier takes back.
  pub new_log_frontier-append_all :
      (log : List Value) (f : LogFrontier)
      → length log < 2 ^ 64
      → append_all sha256 empty log ≡ ok f
      → new_log_frontier f.size f.subtrees ≡ ok f
  unfolding new_log_frontier
  new_log_frontier-append_all log f small run =
      let (g, run', size, h) = append_all-Holds empty [] log Holds-empty (omega arith) in
      let same : g ≡ f = ground arith in
      let count : length g.subtrees ≡ ones_count 64 g.size =
        ap length h.values_of
        ∙ length-values sha256 h.trees
        ∙ length-Stack 64 0 g.size h.trees h.stack (omega arith) in
      let fits : (length f.subtrees == ones_count 64 f.size) ≡ true =
        rw (← same) ((==_iff (length g.subtrees) (ones_count 64 g.size)).1 count) in
      rw fits refl
