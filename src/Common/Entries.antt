-- ===== src/Common/Entries.antt =====
-- Lists of entries: what a `HashMap` of the standard library holds, and the order of iteration
-- that an `IndexMap` documents.
pub mod Laws
use yagc.Common.Tests.{if◌then◌else◌, is_some, get_elem?, set}
use yagc.Common.Equality.{Eq, ◌==◌}
use Prim.Native.Nat.{ℕ, zero, suc}
use mathlib.Core.Bool.{Bool, true, false}
use mathlib.Core.Option.{Option, none, some}
use mathlib.Core.Option
use mathlib.Core.List.{List, [], ◌∷◌}

module _ {K V : Type 0} ⦃e : Eq K⦄ where
  unfoldable pub lookup : List (K × V) → K → Option V
  lookup [] k = none
  lookup ((j, v) ∷ l) k = if j == k then some v else lookup l k

  -- A key that is there keeps its place; a new key goes to the end.
  unfoldable pub insert : List (K × V) → K → V → List (K × V)
  insert [] k v = (k, v) ∷ []
  insert ((j, w) ∷ l) k v = if j == k then (k, v) ∷ l else (j, w) ∷ insert l k v

  -- The other entries keep their order.
  unfoldable pub remove : List (K × V) → K → List (K × V)
  remove [] k = []
  remove ((j, v) ∷ l) k = let rest = remove l k in if j == k then rest else (j, v) ∷ rest

  unfoldable pub index_of : List (K × V) → K → Option ℕ
  index_of [] k = none
  index_of ((j, v) ∷ l) k = if j == k then some 0 else Option.map suc (index_of l k)

module _ {K V : Type 0} where
  unfoldable pub map_values : (K → V → V) → List (K × V) → List (K × V)
  map_values f [] = []
  map_values f ((k, v) ∷ l) = (k, f k v) ∷ map_values f l

  abbrev pub exchange : List (K × V) → ℕ → ℕ → Option (K × V) → Option (K × V) → List (K × V)
  exchange l i j (some a) (some b) = set (set l i b) j a
  exchange l i j _ _ = l

  -- The entries at two positions change places; out of bounds is a panic in the library, which the
  -- callers rule out, and leaves the list alone here.
  unfoldable pub swap : List (K × V) → ℕ → ℕ → List (K × V)
  swap l i j = exchange l i j (get_elem? l i) (get_elem? l j)
