-- ===== src/SignalAudit/Log.antt =====
-- The log tree that internal/signalaudit/state.go grows with each update.
use kt_witness.Common.{ℕ, ◌+◌, ◌-◌, ◌^◌, ◌<◌, ◌≡◌, List, [], ◌∷◌, ◌++◌, arith}
use kt_witness.Signal.Node.{Value}
use kt_witness.Signal.Frontier.Refinement.{Holds, append-Holds}
use kt_witness.Signal.Prefix.{log_leaf_hash}
use kt_witness.SignalAudit.Update.{Update}
use kt_witness.SignalAudit.State.{State, applied, advance, apply, next_root, checked}
use kt_witness.SignalAudit.Soundness.{and_then-applied, advance-inv}

module _ (sha256 : List ℕ → Value) where
  -- An update that is applied grows a log that the frontier holds by one leaf.
  pub apply-Holds :
      (s after : State) (u : Update) (log : List Value)
      → Holds sha256 s.log log
      → s.log.size < 2 ^ 64 - 1
      → apply sha256 s u ≡ applied after
      → (after.log.size ≡ s.log.size + 1)
        × Holds sha256 after.log (log ++ log_leaf_hash sha256 after.prefix_root u.commitment ∷ [])
  unfolding apply
  apply-Holds s after u log h small e =
      let (_, _, e1) = and_then-applied (checked u) _ e in
      let (next, _, e2) = and_then-applied (next_root sha256 s u) (advance sha256 s u) e1 in
      let (same, logged) = advance-inv sha256 s after u next e2 in
      let leaf = log_leaf_hash sha256 next u.commitment in
      let (g, run, size, held) = append-Holds sha256 s.log log leaf h small in
      let grown : g ≡ after.log = ground arith in rw (same, ← grown) (size, held)
