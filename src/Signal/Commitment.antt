-- ===== src/Signal/Commitment.antt =====
-- What a commitment that verifyCommitment of internal/source/signal/prefixtree.go accepts is to.
use kt_witness.Common.{
  ℕ, ◌<◌, ◌≡◌, ◌≢◌, refl, sym, ◌∙◌, List, length, arith, true, append-split, ∷-split, ◌⊎◌, inl, inr,
  Bool-cases,
}
use kt_witness.PbWire.{big_endian}
use kt_witness.Signal.Node.{Value}
use kt_witness.Signal.Consistency.{same_value, same_value-eq, same_value-ne}
use kt_witness.Signal.Prefix.{commitment_key, commitment_bytes, verify_commitment}

big_endian-two : (a b : ℕ) → a < 65536 → b < 65536 → big_endian 2 a ≡ big_endian 2 b → a ≡ b
big_endian-two a b h k e =
    let (high, tail) = ∷-split e in let (low, _) = ∷-split tail in omega (arith, high, low)

-- The bytes that are hashed say where the nonce, the key and the value end.
commitment_bytes-split :
    (nonce key value nonce' key' value' : List ℕ)
    → length nonce ≡ 16
    → length nonce' ≡ 16
    → length key < 65536
    → length key' < 65536
    → commitment_bytes nonce key value ≡ commitment_bytes nonce' key' value'
    → (nonce ≡ nonce') × (key ≡ key') × (value ≡ value')
commitment_bytes-split nonce key value nonce' key' value' h h' k k' e =
    let (same_nonce, framed) = append-split nonce nonce' _ _ (h ∙ sym h') e in
    let (size, keyed) =
      append-split (big_endian 2 (length key)) (big_endian 2 (length key')) _ _ refl framed in
    let (same_key, valued) = append-split key key' _ _ (big_endian-two _ _ k k' size) keyed in
    let (_, same_value) =
      append-split (big_endian 4 (length value)) (big_endian 4 (length value')) _ _ refl valued in
    (same_nonce, same_key, same_value)

-- What has been accepted.
accepted :
    (hmac : List ℕ → List ℕ → Value) (key commitment value nonce : List ℕ)
    → verify_commitment hmac key commitment value nonce ≡ true
    → (length nonce ≡ 16)
      × (length key < 65536)
      × (hmac commitment_key (commitment_bytes nonce key value) ≡ commitment)
unfolding verify_commitment
accepted hmac key commitment value nonce e =
    let same = same_value-eq (hmac commitment_key (commitment_bytes nonce key value)) commitment in
    (ground arith, ground arith, same (ground arith))

-- A commitment that is accepted for two openings is accepted for one key and one value under one
-- nonce, unless the keyed hash takes the two byte strings that were hashed to one value.
pub verify_commitment_binds :
    (hmac : List ℕ → List ℕ → Value) (commitment key value nonce key' value' nonce' : List ℕ)
    → verify_commitment hmac key commitment value nonce ≡ true
    → verify_commitment hmac key' commitment value' nonce' ≡ true
    → ◌⊎◌ ((nonce ≡ nonce') × (key ≡ key') × (value ≡ value')) (
        (commitment_bytes nonce key value ≢ commitment_bytes nonce' key' value')
        × (hmac commitment_key (commitment_bytes nonce key value)
            ≡ hmac commitment_key (commitment_bytes nonce' key' value')))
verify_commitment_binds hmac commitment key value nonce key' value' nonce' e e' =
    let (size, short, hash) = accepted hmac key commitment value nonce e in
    let (size', short', hash') = accepted hmac key' commitment value' nonce' e' in
    let bytes = commitment_bytes nonce key value in
    let bytes' = commitment_bytes nonce' key' value' in
    elim (Bool-cases (same_value bytes bytes')) [
      | inl same ↦ inl (
          commitment_bytes-split nonce key value nonce' key' value' size size' short short'
            (same_value-eq bytes bytes' same))
      | inr differ ↦ inr (same_value-ne bytes bytes' differ, hash ∙ sym hash')
    ]
