-- ===== src/Store/Bolt.antt =====
-- The interface of go.etcd.io/bbolt that internal/store uses. A bucket maps byte keys to encoded
-- values; the keys that the store builds, an origin, an origin with a number, or an origin with a
-- number and a name, are encoded injectively where origins hold no `|` and no zero byte, so they stand
-- here as data.
use mathlib.Core.List.{Mem}
use kt_witness.Common.{
  ℕ, String, ◌≡◌, ◌↔◌, Bool, true, ◌&&◌, false, Option, none, some, List, arith, str_eq, str_eq_iff,
  ◌==◌, if◌then◌else◌,
}

pub data Key : Type 0 where
  by_origin : String → Key
  by_number : String → ℕ → Key
  by_peer : String → ℕ → String → Key

abbrev pub key_eq : Key → Key → Bool
key_eq (by_origin a) (by_origin b) = str_eq a b
key_eq (by_number a m) (by_number b n) = str_eq a b && (m == n)
key_eq (by_peer a m x) (by_peer b n y) = str_eq a b && (m == n) && str_eq x y
key_eq _ _ = false

pub key_eq_iff : (j k : Key) → (key_eq j k ≡ true) ↔ (j ≡ k)
key_eq_iff (by_origin a) (by_origin b) = ground (arith, str_eq_iff a b)
key_eq_iff (by_number a m) (by_number b n) = ground (arith, str_eq_iff a b)
key_eq_iff (by_peer a m x) (by_peer b n y) = ground (arith, str_eq_iff a b, str_eq_iff x y)
key_eq_iff _ _ = ground arith

-- What the store relies on: a read returns the last write of its key, a write or a delete of one key
-- leaves the others, and a cursor over the keys of a prefix meets what is stored under them and no
-- more.
pub record Bolt : Type 1 where
  pub Bucket : Type 0 → Type 0
  pub get : {V : Type 0} → Bucket V → Key → Option V
  pub put : {V : Type 0} → Bucket V → Key → V → Bucket V
  pub delete : {V : Type 0} → Bucket V → Key → Bucket V
  pub get-put :
      {V : Type 0} (b : Bucket V) (k j : Key) (v : V)
      → get (put b k v) j ≡ (if key_eq k j then some v else get b j)
  pub get-delete :
      {V : Type 0} (b : Bucket V) (k j : Key)
      → get (delete b k) j ≡ (if key_eq k j then none else get b j)
  pub scan : {V : Type 0} → Bucket V → (Key → Bool) → List V
  pub scan_complete :
      {V : Type 0} (b : Bucket V) (p : Key → Bool) (k : Key) (v : V)
      → p k ≡ true
      → get b k ≡ some v
      → Mem v (scan b p)
  pub scan_sound :
      {V : Type 0} (b : Bucket V) (p : Key → Bool) (v : V)
      → Mem v (scan b p)
      → ∥ ((k : Key) × (p k ≡ true) × (get b k ≡ some v)) ∥₁
