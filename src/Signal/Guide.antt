-- ===== src/Signal/Guide.antt =====
-- internal/source/signal/implicit.go: the guide of a search for a version of a key. A uint64 wraps at
-- 2 ^ 64; a loop on fuel that runs out is `stuck`.
pub mod Earliest
use kt_witness.Common.{
  ℕ, zero, suc, ◌+◌, ◌-◌, ◌*◌, ◌/◌, ◌%◌, ◌^◌, ◌≤◌, ◌<◌, ◌≡◌, ◌≢◌, ◌⊎◌, inl, inr, refl, ap, sym,
  subst, ◌∙◌, arith, Bool, true, false, Bool-cases, ◌&&◌, ◌||◌, not, List, [], ◌∷◌, ◌++◌, length,
  All, Option, none, some, ltb, leb, ◌==◌, ==_iff, if◌then◌else◌,
}
use kt_witness.Signal.Numbering.{
  Outcome, stuck, rejects, gives, ◌>=>◌, bad_range, log2, left_step, right_step, path_mismatch,
  malformed_chain, not_extended,
}

abbrev pub is_leaf_node : ℕ → Bool
is_leaf_node x = x % 2 == 0

unfoldable pub move_loop : ℕ → ℕ → ℕ → ℕ → Outcome ℕ
move_loop zero x start n = stuck
move_loop (suc rounds) x start n =
    let next =
      (if ltb x start then right_step x else left_step x) >=> λ y. move_loop rounds y start n in
    if ltb x start || leb n x then next else gives x

-- A step goes down a level, of which there are 65 at most.
abbrev pub move_within : ℕ → ℕ → ℕ → Outcome ℕ
move_within x start n = move_loop 66 x start n

abbrev pub search_root : ℕ → ℕ → Outcome ℕ
search_root start n =
    if leb n start then rejects bad_range else move_within (2 ^ log2 n - 1) start n

abbrev pub search_left : ℕ → ℕ → ℕ → Outcome ℕ
search_left x start n = left_step x >=> λ s. move_within s start n

abbrev pub search_right : ℕ → ℕ → ℕ → Outcome ℕ
search_right x start n = right_step x >=> λ s. move_within s start n

-- The loop of frontier, with the nodes so far: it gives up past 512 of them.
unfoldable pub frontier_loop : ℕ → ℕ → ℕ → ℕ → List ℕ → Outcome (List ℕ)
frontier_loop zero last start n out = stuck
frontier_loop (suc rounds) last start n out =
    let more = search_right last start n >=> λ next.
    if ltb 512 (length (out ++ (next ∷ [])))
    then rejects not_extended
    else frontier_loop rounds next start n (out ++ (next ∷ [])) in
    if last == n - 1 then gives out else more

abbrev pub frontier : ℕ → ℕ → Outcome (List ℕ)
frontier start n = search_root start n >=> λ last. frontier_loop 513 last start n (last ∷ [])

pub record VersionedId : Type 0 where
  pub id : ℕ
  pub version : ℕ

pub record ProofGuide : Type 0 where
  pub pos : ℕ
  pub n : ℕ
  pub version : ℕ
  pub ids : List ℕ
  pub sorted : List VersionedId
  pub is_frontier : Bool

unfoldable pub new_proof_guide : Option ℕ → ℕ → ℕ → Outcome ProofGuide
unfolding frontier_loop move_loop
new_proof_guide none pos n = frontier pos n >=> λ f.
    gives (record { pos = pos; n = n; version = 0; ids = f; sorted = []; is_frontier = true })
new_proof_guide (some version) pos n = search_root pos n >=> λ r.
    gives (record {
      pos = pos;
      n = n;
      version = version;
      ids = r ∷ [];
      sorted = [];
      is_frontier = false;
    })

-- sort.Slice by id.
unfoldable pub put_by_id : VersionedId → List VersionedId → List VersionedId
put_by_id v [] = v ∷ []
put_by_id v (w ∷ rest) =
    let more = put_by_id v rest in if ltb w.id v.id then w ∷ more else v ∷ w ∷ rest

unfoldable pub sort_ids : List VersionedId → List VersionedId
unfolding put_by_id
sort_ids [] = []
sort_ids (v ∷ rest) = put_by_id v (sort_ids rest)

unfoldable pub is_monotonic : List VersionedId → Bool
is_monotonic [] = true
is_monotonic (v ∷ []) = true
is_monotonic (v ∷ w ∷ rest) = not (ltb w.version v.version) && is_monotonic (w ∷ rest)

-- The first entry with a version, and the version of the first entry with an id.
abbrev pub with_version : ℕ → List VersionedId → Option ℕ
with_version version [] = none
with_version version (v ∷ rest) =
    let more = with_version version rest in if v.version == version then some v.id else more

abbrev pub version_at : ℕ → List VersionedId → Option ℕ
version_at id [] = none
version_at id (v ∷ rest) =
    let more = version_at id rest in if v.id == id then some v.version else more

abbrev pub last_version : ℕ → List VersionedId → ℕ
last_version v [] = v
last_version v (w ∷ rest) = last_version w.version rest

abbrev pub last_id : ℕ → List ℕ → ℕ
last_id i [] = i
last_id i (j ∷ rest) = last_id j rest

-- The step after `last`, whose version is ctr.
abbrev pub next_step : ProofGuide → ℕ → Option ℕ → Outcome (Bool × ProofGuide)
next_step g last none = rejects path_mismatch
next_step g last (some ctr) =
    if ltb ctr g.version
    then if last == g.n - 1
      then gives (true, g)
      else (search_right last g.pos g.n >=> λ next.
          gives (false, record g { ids = g.ids ++ (next ∷ []) }))
    else if last == g.pos
    then gives (true, g)
    else (search_left last g.pos g.n >=> λ next.
        gives (false, record g { ids = g.ids ++ (next ∷ []) }))

abbrev pub poll_from : ProofGuide → Option ℕ → Outcome (Bool × ProofGuide)
poll_from g none = rejects malformed_chain
poll_from g (some last) =
    if is_leaf_node last then gives (true, g) else next_step g last (version_at last g.sorted)

unfoldable pub poll : ProofGuide → Outcome (Bool × ProofGuide)
unfolding sort_ids is_monotonic move_loop
poll g =
    let sorted = sort_ids g.sorted in
    let newest = last_version 0 sorted in
    if ltb (length g.sorted) (length g.ids)
    then gives (false, g)
    else if not (is_monotonic sorted)
    then rejects malformed_chain
    else if g.is_frontier
    then poll_from (record g { sorted = sorted; version = newest; is_frontier = false })
        (with_version newest sorted)
    else poll_from (record g { sorted = sorted }) (some (last_id 0 g.ids))

abbrev pub insert_step : ProofGuide → ℕ → ℕ → ProofGuide
insert_step g id ctr = record g { sorted = g.sorted ++ (record { id = id; version = ctr } ∷ []) }

-- The first entry at the version or above it, if it is at the version.
unfoldable pub smallest : ℕ → List VersionedId → Option ℕ
smallest version [] = none
smallest version (v ∷ rest) =
    let more = smallest version rest in
    if leb version v.version then if v.version == version then some v.id else none else more

abbrev pub index_of : ℕ → ℕ → List ℕ → Option (ℕ × ℕ)
index_of i id [] = none
index_of i id (j ∷ rest) =
    let more = index_of (i + 1) id rest in if j == id then some (i, j) else more

abbrev pub result_at : List ℕ → Option ℕ → Option (ℕ × ℕ)
result_at ids none = none
result_at ids (some id) = index_of 0 id ids

unfoldable pub result : ProofGuide → Option (ℕ × ℕ)
unfolding smallest
result g = result_at g.ids (smallest g.version g.sorted)
