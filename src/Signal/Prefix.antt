-- ===== src/Signal/Prefix.antt =====
-- internal/source/signal/prefixtree.go: the hashes of the prefix tree, a client's inclusion proof and
-- the commitment. A [32]byte is the list of its bytes; hmac.New(sha256.New, key) is a parameter of
-- verify_commitment, a function of the key and of what is written to it.
use kt_witness.Common.{
  ℕ, ◌-◌, ◌*◌, ◌/◌, ◌%◌, ◌^◌, Bool, false, ◌||◌, List, [], ◌∷◌, ◌++◌, length, ltb, ◌==◌,
  if◌then◌else◌, not, Option, none, some,
}
use kt_witness.PbWire.{big_endian}
use kt_witness.Signal.Node.{Value}
use kt_witness.Signal.Consistency.{same_value}

abbrev pub prefix_tree_depth : ℕ
prefix_tree_depth = 8 * 32

-- b[i], 0 past the end, which no index of the code reaches.
abbrev pub byte_at : List ℕ → ℕ → ℕ
byte_at [] i = 0
byte_at (b ∷ bs) i = let rest = byte_at bs (i - 1) in if i == 0 then b else rest

-- Bit i of an index, the most significant bit of each byte first.
unfoldable pub bit : List ℕ → ℕ → ℕ
bit index i = byte_at index (i / 8) / 2 ^ (7 - i % 8) % 2

-- What a leaf is hashed from, after its tag.
abbrev pub leaf_bytes : List ℕ → ℕ → ℕ → List ℕ
leaf_bytes index ctr pos = index ++ (big_endian 4 ctr ++ big_endian 8 pos)

module _ (sha256 : List ℕ → Value) where
  abbrev pub prefix_leaf_hash : List ℕ → ℕ → ℕ → Value
  prefix_leaf_hash index ctr pos = sha256 (0 ∷ leaf_bytes index ctr pos)

  abbrev pub prefix_parent_hash : Value → Value → Value
  prefix_parent_hash left right = sha256 (1 ∷ left ++ right)

  -- The level is a uint8.
  abbrev pub prefix_stand_in_hash : List ℕ → ℕ → Value
  prefix_stand_in_hash seed level = sha256 (2 ∷ seed ++ level % 256 ∷ [])

  abbrev pub log_leaf_hash : Value → List ℕ → Value
  log_leaf_hash prefix_root commitment = sha256 (prefix_root ++ commitment)

  -- The loop of evaluatePrefixProof; `left` siblings are still to come, so the next one is at this
  -- bit of the index plus one.
  unfoldable pub evaluate_loop : List ℕ → Value → List Value → Value
  evaluate_loop index value [] = value
  evaluate_loop index value (sibling ∷ proof) =
      evaluate_loop index
        (if bit index (length proof) == 0
          then prefix_parent_hash value sibling
          else prefix_parent_hash sibling value)
        proof

  -- `none` is the error.
  unfoldable pub evaluate_prefix_proof : List ℕ → ℕ → ℕ → List Value → Option Value
  unfolding evaluate_loop
  evaluate_prefix_proof index ctr pos proof =
      if length proof == prefix_tree_depth
      then some (evaluate_loop index (prefix_leaf_hash index ctr pos) proof)
      else none

abbrev pub commitment_key : List ℕ
commitment_key =
    216 ∷ 33 ∷ 248 ∷ 121 ∷ 13 ∷ 151 ∷ 112 ∷ 151 ∷ 150 ∷ 180 ∷ 215 ∷ 144 ∷ 51 ∷ 87 ∷ 195 ∷ 245 ∷ []

-- What verifyCommitment writes to the HMAC.
abbrev pub commitment_bytes : List ℕ → List ℕ → List ℕ → List ℕ
commitment_bytes nonce search_key value =
    nonce
    ++ (big_endian 2 (length search_key) ++ (search_key ++ (big_endian 4 (length value) ++ value)))

unfoldable pub verify_commitment :
    (List ℕ → List ℕ → Value) → List ℕ → List ℕ → List ℕ → List ℕ → Bool
verify_commitment hmac search_key commitment value nonce =
    if not (length nonce == 16) || not (length commitment == 32)
    then false
    else if ltb 65535 (length search_key)
    then false
    else same_value (hmac commitment_key (commitment_bytes nonce search_key value)) commitment
