-- ===== src/SignalAudit/Persist.antt =====
-- MarshalJSON, UnmarshalJSON and decodeHash of internal/signalaudit/state.go. encoding/hex is a
-- parameter, a text the list of its bytes; a stateJSON stands for its JSON, whose fields that are left
-- out are the empty ones.
use mathlib.Core.List.{reverse, reverse-reverse}
use kt_witness.Common.{
  ℕ, ◌≡◌, refl, ap, ◌∙◌, true, false, ◌||◌, not, List, [], ◌∷◌, map, All, length, ◌==◌, ==_iff,
  if◌then◌else◌, Option, none, some, arith, Bool-cases, inl, inr,
}
use kt_witness.Signal.Node.{Value}
use kt_witness.Signal.Frontier.{LogFrontier, new_log_frontier}
use kt_witness.Signal.Frontier
use kt_witness.SignalAudit.Update.{hash_size}
use kt_witness.SignalAudit.State.{State, no_state}

pub record StateJson : Type 0 where
  pub size : ℕ
  pub prefix_root : List ℕ
  pub log_frontier : List (List ℕ)

-- A state that is well formed: hashes of their size, as many subtrees as the size has, and nothing in
-- an empty log.
pub record IsWellFormed (s : State) : Type 0 where
  pub root_length : length s.prefix_root ≡ 32
  pub subtree_lengths : All (λ v. length v ≡ 32) (reverse s.log.subtrees)
  pub frontier : new_log_frontier s.log.size s.log.subtrees ≡ Frontier.ok s.log
  pub empty : s.log.size ≡ 0 → s ≡ no_state

module _ (encode : Value → List ℕ) (decode : List ℕ → Option Value) where
  -- Subtrees gives the largest first.
  pub marshal_state : State → StateJson
  marshal_state s = record {
    size = s.log.size;
    prefix_root = if s.log.size == 0 then [] else encode s.prefix_root;
    log_frontier = map encode (reverse s.log.subtrees);
  }

  pub decode_hash : List ℕ → Option Value
  decode_hash text = elim (decode text) [
    | none ↦ none
    | some b ↦ if length b == hash_size then some b else none
  ]

  pub decode_hashes : List (List ℕ) → Option (List Value)
  decode_hashes [] = some []
  decode_hashes (text ∷ rest) = elim (decode_hash text) [
    | none ↦ none
    | some b ↦ elim (decode_hashes rest) [ none ↦ none | some bs ↦ some (b ∷ bs) ]
  ]

  -- The part for a log that is not empty.
  pub restored : StateJson → Option State
  restored j = elim (decode_hash j.prefix_root) [
    | none ↦ none
    | some root ↦ elim (decode_hashes j.log_frontier) [
      | none ↦ none
      | some frontier ↦ elim (new_log_frontier j.size (reverse frontier)) [
        | Frontier.ok log ↦ some (record { prefix_root = root; log = log })
        | _ ↦ none
      ]
    ]
  ]

  pub unmarshal_state : StateJson → Option State
  unfolding restored
  unmarshal_state j =
      if j.size == 0
      then (if not (length j.prefix_root == 0) || not (length j.log_frontier == 0)
          then none
          else some no_state)
      else restored j

  unmarshal_full : (j : StateJson) → (j.size == 0) ≡ false → unmarshal_state j ≡ restored j
  unfolding unmarshal_state
  unmarshal_full j e = simp e refl

  module _ (inverse : (b : Value) → decode (encode b) ≡ some b) where
    decode_hash-encode : (v : Value) → length v ≡ 32 → decode_hash (encode v) ≡ some v
    unfolding decode_hash
    decode_hash-encode v h =
        let size : (length v == hash_size) ≡ true = (==_iff (length v) 32).1 h in
        rw (decode_hash, inverse v) (rw size refl)

    decode_hashes-encode :
        (l : List Value) → All (λ v. length v ≡ 32) l → decode_hashes (map encode l) ≡ some l
    unfolding decode_hashes
    decode_hashes-encode [] all = refl
    decode_hashes-encode (v ∷ l) (p, all) =
        rw (decode_hashes, decode_hash-encode v p) (rw (decode_hashes-encode l all) refl)

    full_state :
        (s : State)
        → IsWellFormed s
        → (s.log.size == 0) ≡ false
        → restored (marshal_state s) ≡ some s
    unfolding marshal_state restored
    full_state s w e =
        let root = decode_hash-encode s.prefix_root w.root_length in
        let hashes = decode_hashes-encode (reverse s.log.subtrees) w.subtree_lengths in
        let log = ap (new_log_frontier s.log.size) (reverse-reverse s.log.subtrees) ∙ w.frontier in
        simp e (rw (restored, root) (rw hashes (rw log refl)))

    -- A well-formed state is restored from its persisted form.
    pub unmarshal_state-marshal_state :
        (s : State) → IsWellFormed s → unmarshal_state (marshal_state s) ≡ some s
    unfolding unmarshal_state marshal_state
    unmarshal_state-marshal_state s w = elim (Bool-cases (s.log.size == 0)) [
      | inl e ↦ let none_yet : s ≡ no_state = w.empty (ground arith) in rw none_yet refl
      | inr e ↦ unmarshal_full (marshal_state s) e ∙ full_state s w e
    ]
