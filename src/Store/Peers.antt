-- ===== src/Store/Peers.antt =====
-- Store.RecordPeer and Store.RecordSeenWitness of internal/store/peers.go.
use mathlib.Core.List.{Mem, mem-cons, mem-cons_self, mem-cons_of_mem, not-mem-nil, Mem-prop}
use mathlib.Core.Logic.{∥∥₁_elim}
use mathlib.Core.Logic.Or
use mathlib.Core.HLevel.{×_prop, Π_prop, ⊥_prop}
use kt_witness.Common.{
  ℕ, String, ◌≡◌, refl, subst, ◌≢◌, ◌↔◌, Bool, true, false, ◌&&◌, some, List, [], ◌∷◌, arith, ◌==◌,
  str_eq, str_eq_iff, if◌then◌else◌, Bool-cases, inl, inr,
}
use kt_witness.Store.Bolt.{Bolt, Key, by_origin, by_number, by_peer}
use kt_witness.Store.Db.{PeerAttestation, Db, Result, ok, transact}

-- The keys that begin with the origin and the size.
abbrev at_size : String → ℕ → Key → Bool
at_size o n (by_peer a m w) = str_eq a o && (m == n)
at_size o n (by_origin a) = false
at_size o n (by_number a m) = false

-- The loop of RecordPeer.
disagreeing : String → List PeerAttestation → List PeerAttestation
disagreeing root [] = []
disagreeing root (other ∷ rest) =
    let more = disagreeing root rest in if str_eq other.root root then more else other ∷ more

mem-disagreeing :
    (root : String) (l : List PeerAttestation) (o : PeerAttestation)
    → o.root ≢ root
    → Mem o l
    → Mem o (disagreeing root l)
unfolding disagreeing
mem-disagreeing root [] o ne m = absurd (not-mem-nil m)
mem-disagreeing root (x ∷ l) o ne m = elim (Bool-cases (str_eq x.root root)) [
  | inl same ↦ rw same (
      Or.elim Mem-prop (mem-cons.0 m) (λ e. absurd (ne (ground (arith, str_eq_iff x.root root))))
        (mem-disagreeing root l o ne))
  | inr differs ↦ rw differs (
      Or.elim Mem-prop (mem-cons.0 m) (λ e. rw e mem-cons_self)
        (λ n. mem-cons_of_mem x (mem-disagreeing root l o ne n)))
]

disagreeing-root :
    (root : String) (l : List PeerAttestation) (o : PeerAttestation)
    → Mem o (disagreeing root l)
    → (o.root ≢ root) × Mem o l
unfolding disagreeing
disagreeing-root root [] o m = absurd (not-mem-nil m)
disagreeing-root root (x ∷ l) o m = elim (Bool-cases (str_eq x.root root)) [
  | inl same ↦
      let (ne, more) = disagreeing-root root l o (rw same at m) in (ne, mem-cons_of_mem x more)
  | inr differs ↦
      Or.elim (×_prop (Π_prop (λ _. ⊥_prop)) Mem-prop) (mem-cons.0 (rw differs at m))
        (λ e. (ground (arith, str_eq_iff x.root root), rw e mem-cons_self))
        (λ n. let (ne, more) = disagreeing-root root l o n in (ne, mem-cons_of_mem x more))
]

at_size-by_peer :
    (o : String) (n : ℕ) (k : Key) → at_size o n k ≡ true → (w : String) × (k ≡ by_peer o n w)
at_size-by_peer o n (by_peer x m w) h =
    let log : x ≡ o = ground (arith, str_eq_iff x o) in
    let size : m ≡ n = ground arith in (w, rw (log, size) refl)
at_size-by_peer o n (by_origin x) h = cc
at_size-by_peer o n (by_number x m) h = cc

module _ (bolt : Bolt) where
  abbrev pub peers_at : Db bolt → String → ℕ → List PeerAttestation
  peers_at db origin size = bolt.scan db.peers (at_size origin size)

  unfoldable pub record_peer :
      Bool → PeerAttestation → Db bolt → Db bolt × Result (List PeerAttestation)
  unfolding disagreeing
  record_peer commits a db =
      transact commits db
        (record db { peers = bolt.put db.peers (by_peer a.origin a.size a.witness) a })
        (ok (disagreeing a.root (peers_at db a.origin a.size)))

  -- The attestation is recorded for this log and this size, under the name of some witness.
  abbrev pub IsRecorded : Db bolt → String → ℕ → PeerAttestation → Type 0
  IsRecorded db origin size o =
      ∥ ((w : String) × (bolt.get db.peers (by_peer origin size w) ≡ some o)) ∥₁

  peers_at-IsRecorded :
      (db : Db bolt) (origin : String) (size : ℕ) (o : PeerAttestation)
      → Mem o (peers_at db origin size) ↔ IsRecorded db origin size o
  peers_at-IsRecorded db origin size o = (
    λ m. ∥∥₁_elim (bolt.scan_sound db.peers (at_size origin size) o m) squash₁ (λ r.
        let (w, same) = at_size-by_peer origin size r.0 r.1 in
        ∣ (w, subst (λ k. bolt.get db.peers k ≡ some o) same r.2) ∣₁),
    λ r. ∥∥₁_elim r Mem-prop (λ s.
        bolt.scan_complete db.peers (at_size origin size) (by_peer origin size s.0) o
          (ground (arith, str_eq_iff origin origin)) s.1),
  )

  -- What RecordPeer reports, when it succeeds, are exactly the attestations that were recorded before for
  -- the same log and the same size, by whichever witness, and that name another root.
  pub record_peer_exact :
      (commits : Bool) (a o : PeerAttestation) (db : Db bolt) (found : List PeerAttestation)
      → (record_peer commits a db).1 ≡ ok found
      → (o.root ≢ a.root × IsRecorded db a.origin a.size o) ↔ Mem o found
  unfolding record_peer
  record_peer_exact commits a o db found h =
      let list : disagreeing a.root (peers_at db a.origin a.size) ≡ found = ground arith in
      let recorded = peers_at-IsRecorded db a.origin a.size o in
      rw (← list) (
        λ p. mem-disagreeing a.root _ o p.0 (recorded.1 p.1),
        λ m. let (ne, at) = disagreeing-root a.root _ o m in (ne, recorded.0 at),
      )

  peer-record_peer :
      (a : PeerAttestation) (db : Db bolt)
      → bolt.get (record_peer true a db).0.peers (by_peer a.origin a.size a.witness) ≡ some a
  unfolding record_peer
  peer-record_peer a db = ground (
    arith,
    bolt.get-put db.peers (by_peer a.origin a.size a.witness) (by_peer a.origin a.size a.witness) a,
    str_eq_iff a.origin a.origin,
    str_eq_iff a.witness a.witness,
  )

  -- Two attestations of one log and size with two roots: recording the second reports the first.
  pub split_view_reported :
      (commits : Bool) (a b : PeerAttestation) (db : Db bolt) (found : List PeerAttestation)
      → a.origin ≡ b.origin
      → a.size ≡ b.size
      → a.root ≢ b.root
      → (record_peer commits b (record_peer true a db).0).1 ≡ ok found
      → Mem a found
  split_view_reported commits a b db found same_log same_size ne h =
      (record_peer_exact commits b a _ found h).0
        (ne, rw (← same_log, ← same_size) (∣ (a.witness, peer-record_peer a db) ∣₁))

  -- When one witness gave both, the second is stored in place of the first, which only the report
  -- still holds.
  pub split_view_overwritten :
      (a b : PeerAttestation) (db : Db bolt) (found : List PeerAttestation)
      → a.origin ≡ b.origin
      → a.size ≡ b.size
      → a.witness ≡ b.witness
      → a.root ≢ b.root
      → (record_peer true b (record_peer true a db).0).1 ≡ ok found
      → Mem a found
        × (bolt.get
              (record_peer true b (record_peer true a db).0).0.peers
              (by_peer a.origin a.size a.witness)
            ≡ some b)
  split_view_overwritten a b db found same_log same_size same_witness ne h = (
    split_view_reported true a b db found same_log same_size ne h,
    rw (same_log, same_size, same_witness) (peer-record_peer b _),
  )
