-- ===== src/Store/Backoff.antt =====
-- internal/store/backoff.go. A zero time.Time is `none`; a duration is a number of nanoseconds.
use kt_witness.Common.{
  ℕ, zero, suc, ◌+◌, ◌-◌, ◌*◌, ◌^◌, ◌≤◌, ◌≡◌, Option, none, some, arith, ltb, if◌then◌else◌, ap,
  sym, ◌∙◌, Bool-cases, inl, inr,
}
use kt_witness.Store.Db.{Time}

abbrev pub max_fetch_attempts : ℕ
max_fetch_attempts = 3

abbrev pub hour : ℕ
hour = 3600000000000

abbrev pub retry_backoff_max : ℕ
retry_backoff_max = 168 * hour

-- The loop, for at most `rounds` more exhausted rounds.
doubled : ℕ → ℕ → ℕ
doubled zero d = d
doubled (suc rounds) d =
    let more = doubled rounds (d * 2) in if ltb d retry_backoff_max then more else d

unfoldable pub retry_at : Time → ℕ → Option Time
unfolding doubled
retry_at now attempts =
    if ltb attempts max_fetch_attempts
    then none
    else let d = doubled (attempts - max_fetch_attempts) hour in
      some (now + (if ltb retry_backoff_max d then retry_backoff_max else d))

-- The least of the two.
abbrev capped : ℕ → ℕ
capped d = if ltb retry_backoff_max d then retry_backoff_max else d

capped-full : (d : ℕ) → retry_backoff_max ≤ d → capped d ≡ retry_backoff_max
capped-full d h = ground arith

le-two_pow : (k d : ℕ) → d ≤ 2 ^ k * d
le-two_pow zero d = omega arith
le-two_pow (suc k) d = grind (arith, le-two_pow k d)

capped-doubled : (rounds d : ℕ) → capped (doubled rounds d) ≡ capped (2 ^ rounds * d)
unfolding doubled
capped-doubled zero d = let one : d ≡ 2 ^ zero * d = omega arith in ap capped one
capped-doubled (suc rounds) d = elim (Bool-cases (ltb d retry_backoff_max)) [
  | inl below ↦
      let power : 2 ^ suc rounds ≡ 2 * 2 ^ rounds = omega arith in
      let same : 2 ^ rounds * (d * 2) ≡ 2 ^ suc rounds * d = rw power (grind arith) in
      rw (below, ← same) (capped-doubled rounds (d * 2))
  | inr above ↦
      let full : retry_backoff_max ≤ d = ground arith in
      rw (above) (
        capped-full d full
        ∙ sym (capped-full (2 ^ suc rounds * d) (omega (arith, le-two_pow (suc rounds) d))))
]

-- While attempts are left there is no time set; from then on the delay is an hour, doubled by each
-- further attempt, and at most a week.
pub retry_at_delay :
    (now : Time) (attempts : ℕ)
    → retry_at now attempts ≡ (
        if ltb attempts max_fetch_attempts
        then none
        else some (now + capped (2 ^ (attempts - max_fetch_attempts) * hour)))
unfolding retry_at
retry_at_delay now attempts =
    ap (λ d. if ltb attempts max_fetch_attempts then none else some (now + d))
      (capped-doubled (attempts - max_fetch_attempts) hour)
