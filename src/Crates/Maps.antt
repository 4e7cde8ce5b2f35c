-- ===== src/Crates/Maps.antt =====
-- What the documented behaviour of `indexmap` says of lookups, derived once for its clients.
use yagc.Common.{ℕ, ◌<◌, ◌≡◌, true, none, some, Eq, ◌==◌, length, if◌then◌else◌, is_some}
use mathlib.Core.Option
use yagc.Common.Entries.{lookup}
use yagc.Common.Entries.Laws.{lookup-insert, lookup-remove, lookup-map_values, lookup-swap}
use yagc.Crates.{Crates}

module _ (X : Crates) where
  open X use {
    IndexMap, iter, new, get, set_entry, shift_remove, swap_indices, update_values, iter-new,
    get-iter, iter-set_entry, iter-shift_remove, iter-swap_indices, iter-update_values,
  }

  module _ {K V : Type 0} ⦃e : Eq K⦄ where
    pub get-new : (k : K) → get (new {K = K} {V = V}) k ≡ none
    unfolding lookup
    get-new k = rw (get-iter, iter-new)

    pub get-set_entry :
        (m : IndexMap K V) (k j : K) (v : V)
        → get (set_entry m k v) j ≡ (if k == j then some v else get m j)
    get-set_entry m k j v = rw (get-iter, get-iter, iter-set_entry) (lookup-insert (iter m) k j v)

    pub get-shift_remove :
        (m : IndexMap K V) (k j : K) → get (shift_remove m k) j ≡ (if k == j then none else get m j)
    get-shift_remove m k j = rw (get-iter, get-iter, iter-shift_remove) (lookup-remove (iter m) k j)

    pub get-update_values :
        (f : K → V → V) (m : IndexMap K V) (k : K)
        → get (update_values f m) k ≡ Option.map (f k) (get m k)
    get-update_values f m k =
        rw (get-iter, get-iter, iter-update_values) (lookup-map_values f (iter m) k)

    pub get-swap_indices :
        (m : IndexMap K V) (i j : ℕ) (k : K) {v : V}
        → i < length (iter m)
        → j < length (iter m)
        → get m k ≡ some v
        → is_some (get (swap_indices m i j) k) ≡ true
    get-swap_indices m i j k hi hj h =
        rw (get-iter, iter-swap_indices) (lookup-swap (iter m) i j k hi hj (rw get-iter at h))
