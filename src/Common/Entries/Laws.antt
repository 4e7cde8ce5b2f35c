-- ===== src/Common/Entries/Laws.antt =====
-- How a lookup sees each change of a list of entries.
use yagc.Common.Tests.{if◌then◌else◌, is_some, get_elem?, set, length, Bool-cases, Option-cases}
use yagc.Common.Equality.{Eq, ◌==◌, nat_eq, eq_self, eq_of_test}
use yagc.Common.Entries.{lookup, insert, remove, index_of, map_values, swap}
use Prim.Native.Nat.{ℕ, zero, suc, ◌<◌}
use mathlib.Core.Path.{◌≡◌, refl, ap}
use mathlib.Core.Logic.{inl, inr}
use mathlib.Core.Bool.{true}
use mathlib.Core.Option.{Option, none, some}
use mathlib.Core.Option
use mathlib.Core.List.{List, [], ◌∷◌}
use native.Mathlib.Omega.{arith}

module _ {K V : Type 0} ⦃e : Eq K⦄ where
  pub lookup-insert :
      (l : List (K × V)) (k j : K) (v : V)
      → lookup (insert l k v) j ≡ (if k == j then some v else lookup l j)
  unfolding lookup insert
  lookup-insert [] k j v = refl
  lookup-insert ((i, w) ∷ l) k j v =
      ground (arith, e.test_iff k j, e.test_iff i k, e.test_iff i j, lookup-insert l k j v)

  pub lookup-remove :
      (l : List (K × V)) (k j : K) → lookup (remove l k) j ≡ (if k == j then none else lookup l j)
  unfolding lookup remove
  lookup-remove [] k j = ground arith
  lookup-remove ((i, w) ∷ l) k j =
      ground (arith, e.test_iff k j, e.test_iff i k, e.test_iff i j, lookup-remove l k j)

  pub lookup-map_values :
      (f : K → V → V) (l : List (K × V)) (k : K)
      → lookup (map_values f l) k ≡ Option.map (f k) (lookup l k)
  unfolding lookup map_values
  lookup-map_values f [] k = refl
  lookup-map_values f ((i, w) ∷ l) k = ground (arith, e.test_iff i k, lookup-map_values f l k)

  -- The index of a key is the position of its entry.
  pub index_of-lookup :
      (l : List (K × V)) (k : K) {v : V}
      → lookup l k ≡ some v
      → (i : ℕ) × (index_of l k ≡ some i) × (get_elem? l i ≡ some (k, v))
  unfolding lookup index_of
  index_of-lookup [] k h = cc
  index_of-lookup ((i, w) ∷ l) k h = elim (Bool-cases (i == k)) [
    | inl same ↦ (0, rw same, ground (arith, (e.test_iff i k).0 same))
    | inr other ↦
        let (n, at, there) = index_of-lookup l k (rw other at h) in (suc n, rw (other, at), there)
  ]

  -- The index that is found holds the key.
  pub index_of-get_elem? :
      (l : List (K × V)) (k : K) (i : ℕ)
      → index_of l k ≡ some i
      → (v : V) × (get_elem? l i ≡ some (k, v))
  unfolding index_of
  index_of-get_elem? [] k i h = cc
  index_of-get_elem? ((j, w) ∷ l) k i h = elim (Bool-cases (j == k)) [
    | inl same ↦ let first : i ≡ 0 = ground arith in rw (first, eq_of_test j k same) (w, refl)
    | inr other ↦ elim (Option-cases (index_of l k)) [
      | inl gone ↦ absurd (ground arith)
      | inr (n, at) ↦
          let later : i ≡ suc n = ground arith in
          let (v, there) = index_of-get_elem? l k n at in rw later (v, there)
    ]
  ]

  -- A position that holds a key makes the key found.
  pub lookup-get_elem? :
      (l : List (K × V)) (n : ℕ) (k : K) {v : V}
      → get_elem? l n ≡ some (k, v)
      → is_some (lookup l k) ≡ true
  unfolding lookup
  lookup-get_elem? [] n k h = cc
  lookup-get_elem? ((i, w) ∷ l) zero k h = ground (arith, e.test_iff i k)
  lookup-get_elem? ((i, w) ∷ l) (suc n) k h = ground (arith, lookup-get_elem? l n k h)

module _ {ℓ} {A : Type ℓ} where
  pub get_elem?-set :
      (l : List A) (i j : ℕ) (a : A)
      → i < length l
      → get_elem? (set l i a) j ≡ (if i == j then some a else get_elem? l j)
  get_elem?-set [] i j a h = elim h [ ]
  get_elem?-set (x ∷ l) zero zero a h = refl
  get_elem?-set (x ∷ l) zero (suc j) a h = ground arith
  get_elem?-set (x ∷ l) (suc i) zero a h = ground arith
  get_elem?-set (x ∷ l) (suc i) (suc j) a h = ground (arith, get_elem?-set l i j a (omega arith))

  pub length-set : (l : List A) (i : ℕ) (a : A) → length (set l i a) ≡ length l
  length-set [] i a = refl
  length-set (x ∷ l) zero a = refl
  length-set (x ∷ l) (suc i) a = ap suc (length-set l i a)

  pub get_elem?-some : (l : List A) (i : ℕ) → i < length l → (a : A) × (get_elem? l i ≡ some a)
  get_elem?-some [] i h = elim h [ ]
  get_elem?-some (x ∷ l) zero h = (x, refl)
  get_elem?-some (x ∷ l) (suc i) h = get_elem?-some l i (omega arith)

  pub length-get_elem? : (l : List A) (i : ℕ) {a : A} → get_elem? l i ≡ some a → i < length l
  length-get_elem? [] i h = cc
  length-get_elem? (x ∷ l) zero h = omega arith
  length-get_elem? (x ∷ l) (suc i) h = omega (arith, length-get_elem? l i h)

module _ {K V : Type 0} where
  -- What stands where after two positions have changed places.
  pub get_elem?-swap :
      (l : List (K × V)) (i j n : ℕ)
      → i < length l
      → j < length l
      → get_elem? (swap l i j) n
        ≡ (if j == n then get_elem? l i else if i == n then get_elem? l j else get_elem? l n)
  unfolding swap
  get_elem?-swap l i j n hi hj =
      let (a, ea) = get_elem?-some l i hi in
      let (b, eb) = get_elem?-some l j hj in
      rw (ea, eb)
        (ground (
          arith,
          get_elem?-set (set l i b) j n a (omega (arith, length-set l i b)),
          get_elem?-set l i n b hi,
        ))

module _ {K V : Type 0} ⦃e : Eq K⦄ where
  -- Every key of the list is still found after an exchange.
  pub lookup-swap :
      (l : List (K × V)) (i j : ℕ) (k : K) {v : V}
      → i < length l
      → j < length l
      → lookup l k ≡ some v
      → is_some (lookup (swap l i j) k) ≡ true
  lookup-swap l i j k {v} hi hj h =
      let (n, at, there) = index_of-lookup l k h in
      elim (Bool-cases (i == n)) [
        | inl first ↦
            lookup-get_elem? (swap l i j) j k {v = v}
              (rw (get_elem?-swap l i j j hi hj) (ground (arith, eq_self j, eq_of_test i n first)))
        | inr not_first ↦ elim (Bool-cases (j == n)) [
          | inl second ↦
              lookup-get_elem? (swap l i j) i k {v = v}
                (rw (get_elem?-swap l i j i hi hj) (ground (arith, eq_of_test j n second)))
          | inr neither ↦
              lookup-get_elem? (swap l i j) n k {v = v}
                (rw (get_elem?-swap l i j n hi hj, neither, not_first) there)
        ]
      ]
