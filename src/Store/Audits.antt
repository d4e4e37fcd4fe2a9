-- ===== src/Store/Audits.antt =====
-- The reads of the audit records of one log in internal/store/store.go. `audits` is what the bucket's
-- cursor yields from the prefix of the log, in the order of its keys; AuditsInOrder says what the keys
-- make sure of. Of an Audit the fields that these functions read are kept; a record that does not
-- decode is left out.
pub mod Unverified
pub mod Holes
pub mod Coverage
use kt_witness.Common.{
  ℕ, zero, suc, ◌+◌, ◌-◌, ◌<◌, Bool, true, false, ◌&&◌, ◌||◌, not, Option, none, some, List, [],
  ◌∷◌, length, ltb, leb, ◌==◌, if◌then◌else◌, All,
}
use kt_witness.Store.Db.{Time}
use kt_witness.Store.Backoff.{max_fetch_attempts}

pub record Audit : Type 0 where
  pub epoch : ℕ
  pub verified : Bool
  pub attempts : ℕ
  pub retry_after : Option Time

-- Each epoch is there once, and the epochs ascend.
abbrev pub AuditsInOrder : List Audit → Type 0
AuditsInOrder [] = Unit
AuditsInOrder (a ∷ rest) = All (λ b. a.epoch < b.epoch) rest × AuditsInOrder rest

-- Whether an epoch is recorded as verified.
unfoldable pub verified_at : ℕ → List Audit → Bool
verified_at e [] = false
verified_at e (a ∷ rest) = ((a.epoch == e) && a.verified) || verified_at e rest

-- Cursor.Seek to the key of an epoch.
unfoldable pub seek : ℕ → List Audit → List Audit
seek from [] = []
seek from (a ∷ rest) = let later = seek from rest in if ltb a.epoch from then later else a ∷ rest

-- The loop of FirstUnverified, with what follows it.
unfoldable pub unverified_loop : ℕ → ℕ → List Audit → Option ℕ
unverified_loop to want [] = if leb want to then some want else none
unverified_loop to want (a ∷ rest) =
    let next = unverified_loop to (want + 1) rest in
    let same = unverified_loop to want rest in
    if ltb to a.epoch
    then (if leb want to then some want else none)
    else if ltb want a.epoch
    then some want
    else if a.epoch == want
    then (if a.verified then next else some want)
    else same

unfoldable pub first_unverified : ℕ → ℕ → List Audit → Option ℕ
unfolding seek unverified_loop
first_unverified from to audits =
    if ltb to from then none else unverified_loop to from (seek from audits)

-- The guards of HolesDue's loop, which skip a record that fails one.
abbrev pub is_due : ℕ → ℕ → Time → Audit → Bool
is_due from to now a =
    not (a.verified || ltb a.epoch from || ltb to a.epoch)
    && not (ltb a.attempts max_fetch_attempts)
    && not (elim a.retry_after [ none ↦ false | some t ↦ ltb now t ])

unfoldable pub holes_loop : ℕ → ℕ → Time → ℕ → ℕ → List Audit → List ℕ
holes_loop from to now limit found [] = []
holes_loop from to now limit found (a ∷ rest) =
    let more = holes_loop from to now limit (found + 1) rest in
    let same = holes_loop from to now limit found rest in
    if leb limit found then [] else if is_due from to now a then a.epoch ∷ more else same

unfoldable pub holes_due : ℕ → ℕ → Time → ℕ → List Audit → List ℕ
unfolding holes_loop
holes_due from to now limit audits = holes_loop from to now limit 0 audits
