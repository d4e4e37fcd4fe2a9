-- ===== src/SignalAudit/Encode.antt =====
-- EncodeUpdate and appendBytes of internal/signalaudit/update.go.
use kt_witness.Common.{ℕ, List, [], ◌∷◌, ◌++◌, length, ◌==◌, if◌then◌else◌}
use kt_witness.PbWire.{append_varint, append_tag}
use kt_witness.Signal.Node.{Value}
use kt_witness.SignalAudit.Update.{Update, different_key, same_key}

unfoldable pub append_bytes : List ℕ → ℕ → List ℕ → List ℕ
append_bytes b field v = append_varint (append_tag b field 2) (length v) ++ v

-- A varint field that is left out when it is 0.
unfoldable pub append_number : List ℕ → ℕ → ℕ → List ℕ
append_number b field v = if v == 0 then b else append_varint (append_tag b field 0) v

unfoldable pub append_copath : List ℕ → List Value → List ℕ
unfolding append_bytes
append_copath b [] = b
append_copath b (c ∷ rest) = append_copath (append_bytes b 1 c) rest

unfoldable pub encode_body : Update → List ℕ
unfolding append_bytes append_number append_copath
encode_body u =
    let body = append_copath [] u.copath in
    if u.proof == different_key
    then append_bytes body 2 u.old_seed
    else if u.proof == same_key
    then append_number (append_number body 2 u.counter) 3 u.position
    else body

unfoldable pub encode_update : Update → List ℕ
unfolding append_bytes encode_body
encode_update u =
    let b = (if u.real then append_varint (append_tag [] 1 0) 1 else []) in
    let fixed = append_bytes (append_bytes (append_bytes b 2 u.index) 3 u.seed) 4 u.commitment in
    append_bytes fixed 5 (append_bytes [] u.proof (encode_body u))
