-- ===== src/Store/Memory.antt =====
-- A bucket in memory: a function from keys, with a list that holds every key it was given. It shows
-- that what the store relies on can be met, and runs the tests.
use mathlib.Core.List.{Mem, Mem-prop, mem-cons, mem-cons_self, mem-cons_of_mem, not-mem-nil}
use mathlib.Core.Logic.Or
use kt_witness.Common.{
  ◌≡◌, refl, sym, ap, ◌∙◌, Bool, true, false, Option, none, some, List, [], ◌∷◌, if◌then◌else◌,
  Bool-cases, inl, inr,
}
use kt_witness.Store.Bolt.{Bolt, Key, key_eq, key_eq_iff}
use kt_witness.Store.Db.{Db}

pub record Memory (V : Type 0) : Type 0 where
  pub read : Key → Option V
  pub keys : List Key
  pub covered : (k : Key) (v : V) → read k ≡ some v → Mem k keys

module _ {V : Type 0} where
  abbrev pub write : (Key → Option V) → Key → Option V → Key → Option V
  write f k o j = if key_eq k j then o else f j

  pub put-covered :
      (m : Memory V) (k : Key) (v : V) (j : Key) (x : V)
      → write m.read k (some v) j ≡ some x
      → Mem j (k ∷ m.keys)
  put-covered m k v j x h = elim (Bool-cases (key_eq k j)) [
    | inl same ↦ rw (sym ((key_eq_iff k j).0 same)) mem-cons_self
    | inr other ↦ mem-cons_of_mem k (m.covered j x (rw other at h))
  ]

  pub delete-covered :
      (m : Memory V) (k : Key) (j : Key) (x : V) → write m.read k none j ≡ some x → Mem j m.keys
  delete-covered m k j x h = elim (Bool-cases (key_eq k j)) [
    | inl same ↦ cc (rw same at h)
    | inr other ↦ m.covered j x (rw other at h)
  ]

  abbrev pub found : Bool → Option V → List V → List V
  found true (some v) rest = v ∷ rest
  found true none rest = rest
  found false o rest = rest

  abbrev pub collect : (Key → Option V) → (Key → Bool) → List Key → List V
  collect f p [] = []
  collect f p (k ∷ ks) = found (p k) (f k) (collect f p ks)

  pub collect_complete :
      (f : Key → Option V) (p : Key → Bool) (ks : List Key) (k : Key) (v : V)
      → p k ≡ true
      → f k ≡ some v
      → Mem k ks
      → Mem v (collect f p ks)
  collect_complete f p [] k v h e m = absurd (not-mem-nil m)
  collect_complete f p (j ∷ ks) k v h e m =
      Or.elim Mem-prop (mem-cons.0 m) (λ same. rw (← same, h, e) mem-cons_self)
        (λ n. later (p j) (f j) (collect_complete f p ks k v h e n))
    where
      later :
          (b : Bool) (o : Option V) → Mem v (collect f p ks) → Mem v (found b o (collect f p ks))
      later true (some x) n = mem-cons_of_mem x n
      later true none n = n
      later false o n = n

  pub collect_sound :
      (f : Key → Option V) (p : Key → Bool) (ks : List Key) (v : V)
      → Mem v (collect f p ks)
      → ∥ ((k : Key) × (p k ≡ true) × (f k ≡ some v)) ∥₁
  collect_sound f p [] v m = absurd (not-mem-nil m)
  collect_sound f p (j ∷ ks) v m = split (p j) (f j) refl refl (collect_sound f p ks v) m
    where
      split :
          (b : Bool) (o : Option V)
          → p j ≡ b
          → f j ≡ o
          → (Mem v (collect f p ks) → ∥ ((k : Key) × (p k ≡ true) × (f k ≡ some v)) ∥₁)
          → Mem v (found b o (collect f p ks))
          → ∥ ((k : Key) × (p k ≡ true) × (f k ≡ some v)) ∥₁
      split true (some x) h e ih n =
          Or.elim squash₁ (mem-cons.0 n) (λ same. ∣ (j, h, e ∙ ap some (sym same)) ∣₁) ih
      split true none h e ih n = ih n
      split false o h e ih n = ih n

abbrev pub memory : Bolt
memory = record {
  Bucket = Memory;
  get = λ b k. b.read k;
  put = λ b k v. record {
    read = write b.read k (some v);
    keys = k ∷ b.keys;
    covered = put-covered b k v;
  };
  delete =
      λ b k. record { read = write b.read k none; keys = b.keys; covered = delete-covered b k };
  get-put = λ b k j v. refl;
  get-delete = λ b k j. refl;
  scan = λ b p. collect b.read p b.keys;
  scan_complete = λ b p k v h e. collect_complete b.read p b.keys k v h e (b.covered k v e);
  scan_sound = λ b p v m. collect_sound b.read p b.keys v m;
}

pub empty-covered : {V : Type 0} (k : Key) (v : V) → ◌≡◌ {A = Option V} none (some v) → Mem k []
empty-covered k v h = cc

abbrev pub empty : {V : Type 0} → Memory V
empty = record { read = λ k. none; keys = []; covered = empty-covered }

abbrev pub empty_db : Db memory
empty_db = record {
  heads = empty;
  forks = empty;
  poisoned = empty;
  retractions = empty;
  epochs = empty;
  peers = empty;
  seen = empty;
}
