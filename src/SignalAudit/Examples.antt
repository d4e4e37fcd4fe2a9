-- ===== src/SignalAudit/Examples.antt =====
-- Tests of the replay of updates, and its theorems at concrete updates.
use mathlib.Core.List.{reverse}
use kt_witness.Common.{
  ℕ, zero, suc, some, ◌+◌, ◌≡◌, ◌⊎◌, refl, List, [], ◌∷◌, ◌++◌, length, arith, true,
}
use kt_witness.Signal.Node.{Value, tree_hash}
use kt_witness.Signal.Frontier.{append, carry_up, new_log_frontier, ones_count}
use kt_witness.Signal.Frontier
use kt_witness.Signal.Frontier.Refinement.{Holds, Holds-empty}
use kt_witness.Signal.Prefix.{
  bit, log_leaf_hash, leaf_bytes, prefix_leaf_hash, evaluate_prefix_proof,
}
use kt_witness.PbWire.RoundTrip.{written}
use kt_witness.SignalAudit.Update.{Update, ok, no_update, zeros, validate}
use kt_witness.SignalAudit.Decode.{decode_update, decode_proof}
use kt_witness.SignalAudit.Encode.{encode_update}
use kt_witness.SignalAudit.Wire.{bytes_at}
use kt_witness.SignalAudit.State.{
  State, no_state, Applied, applied, fold, fake_root, pad, pad_copath, real_root, new_tree_root,
  different_key_root, next_root, advance, apply,
}
use kt_witness.SignalAudit.Tree.{Tree, fresh, input_at, root_at, Step}
use kt_witness.SignalAudit.Canonical.{IsCanonical}
use kt_witness.SignalAudit.RoundTrip.{decode_update-encode_update}
use kt_witness.SignalAudit.Soundness.{ProofCollides, apply-Step}
use kt_witness.SignalAudit.Log.{apply-Holds}
use kt_witness.SignalAudit.Client.{evaluate_prefix_proof-fold}
use kt_witness.SignalAudit.Persist.{
  IsWellFormed, marshal_state, unmarshal_state, unmarshal_state-marshal_state,
}
use kt_witness.SignalAudit.Variants.{decode_proof-low_bits}

abbrev sum : List ℕ → ℕ
sum [] = 0
sum (x ∷ l) = x + sum l

-- A hash of the right size.
abbrev checksum : List ℕ → Value
checksum l = sum l ∷ zeros 31

length-checksum : (l : List ℕ) → length (checksum l) ≡ 32
length-checksum l = refl

abbrev zero_hashes : ℕ → List Value
zero_hashes zero = []
zero_hashes (suc n) = zeros 32 ∷ zero_hashes n

-- The first key of a directory, and a key on the other side of the root.
abbrev first_update : Update
first_update = record no_update {
  real = true;
  index = zeros 32;
  seed = 1 ∷ zeros 15;
  commitment = zeros 32;
  proof = 1;
}

abbrev first_tree : Tree
first_tree = fresh 0 256 (zeros 32) (1 ∷ zeros 15) (leaf_bytes (zeros 32) 0 0)

abbrev second_update : Update
second_update = record first_update {
  index = 128 ∷ zeros 31;
  seed = 2 ∷ zeros 15;
  proof = 3;
  copath =
      root_at checksum 1 (fresh 1 255 (zeros 32) (1 ∷ zeros 15) (leaf_bytes (zeros 32) 0 0)) ∷ [];
  old_seed = 1 ∷ zeros 15;
}

abbrev state_of : Applied State → State
state_of (applied s) = s
state_of _ = no_state

abbrev first_state : State
first_state = state_of (apply checksum no_state first_update)

abbrev second_state : State
second_state = state_of (apply checksum first_state second_update)

apply-first : apply checksum no_state first_update ≡ applied first_state
unfolding apply validate next_root new_tree_root real_root pad_copath pad fold advance append
    carry_up
apply-first = refl

apply-second : apply checksum first_state second_update ≡ applied second_state
unfolding apply validate next_root new_tree_root different_key_root fake_root real_root pad_copath
    pad fold advance append carry_up bit fresh input_at tree_hash
apply-second = refl

first_tree-root : root_at checksum 0 first_tree ≡ first_state.prefix_root
unfolding apply validate next_root new_tree_root real_root pad_copath pad fold advance append
    carry_up bit fresh input_at
first_tree-root = refl

apply-Step_example : ◌⊎◌ (ProofCollides checksum second_update first_tree) (
    (grown : Tree) × (Step 1 second_update first_tree grown)
    × (root_at checksum 0 grown ≡ second_state.prefix_root)
    × (append checksum first_state.log
          (log_leaf_hash checksum second_state.prefix_root second_update.commitment)
        ≡ Frontier.ok second_state.log))
unfolding apply validate next_root new_tree_root advance append carry_up
apply-Step_example =
    apply-Step checksum length-checksum first_state second_state second_update first_tree
      (λ full. first_tree-root) apply-second

apply-Holds_example :
    (first_state.log.size ≡ 0 + 1)
    × Holds checksum first_state.log
        ([] ++ log_leaf_hash checksum first_state.prefix_root first_update.commitment ∷ [])
apply-Holds_example =
    apply-Holds checksum no_state first_state first_update [] (Holds-empty checksum) (omega arith)
      apply-first

second_update-IsCanonical : IsCanonical second_update
unfolding validate
second_update-IsCanonical = record {
  valid = refl;
  index_length = refl;
  seed_length = refl;
  commitment_length = refl;
  copath_lengths = (refl, tt);
  old_seed_length = refl;
  old_seed_unset = λ h. absurd (h refl);
  counter_fits = omega arith;
  position_fits = omega arith;
  counter_unset = λ h. refl;
  position_unset = λ h. refl;
}

decode_update-encode_update_example : decode_update (encode_update second_update) ≡ ok second_update
decode_update-encode_update_example =
    decode_update-encode_update second_update second_update-IsCanonical

decode_proof-low_bits_example :
    decode_proof (written (bytes_at 259 [] ∷ [])) first_update
    ≡ decode_proof (written (bytes_at 3 [] ∷ [])) first_update
decode_proof-low_bits_example =
    decode_proof-low_bits 259 3 [] first_update refl (omega arith) (omega arith) (omega arith)
      (omega arith)

evaluate_prefix_proof-fold_example :
    evaluate_prefix_proof checksum (128 ∷ zeros 31) 2 7 (zero_hashes 256)
    ≡ some (
        fold checksum 0
          (128 ∷ zeros 31)
          (prefix_leaf_hash checksum (128 ∷ zeros 31) 2 7)
          (reverse (zero_hashes 256)))
evaluate_prefix_proof-fold_example =
    evaluate_prefix_proof-fold checksum (128 ∷ zeros 31) 2 7 (zero_hashes 256) refl

-- A state after one update, with texts that are the hashes themselves.
first_state-IsWellFormed : IsWellFormed first_state
unfolding apply validate next_root new_tree_root real_root pad_copath pad fold advance append
    carry_up new_log_frontier ones_count bit
first_state-IsWellFormed = record {
  root_length = refl;
  subtree_lengths = (refl, tt);
  frontier = refl;
  empty = λ h. absurd (omega (arith, h));
}

unmarshal_state-marshal_state_example :
    unmarshal_state (λ b. b) (λ t. some t) (marshal_state (λ b. b) (λ t. some t) first_state)
    ≡ some first_state
unmarshal_state-marshal_state_example =
    unmarshal_state-marshal_state (λ b. b) (λ t. some t) (λ b. refl) first_state
      first_state-IsWellFormed
