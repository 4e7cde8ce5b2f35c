-- ===== src/Crates.antt =====
-- The third-party crates whose values the program keeps: `indexmap`, whose maps and sets keep the
-- order of insertion, and the two enumerations that come from `amdgpu_sysfs`. They are taken as a
-- parameter, with the documented behaviour of each operation as a law about the order of iteration.
pub mod Maps
use yagc.Common.{ℕ, ◌≡◌, ◌↔◌, Bool, true, false, Option, List, [], Eq, ◌==◌, if◌then◌else◌}
use yagc.Common.Entries.{lookup, insert, remove, index_of, map_values, swap}

pub record Crates : Type 1 where
  -- indexmap::IndexMap
  pub IndexMap : Type 0 → Type 0 → Type 0
  pub iter : {K V : Type 0} → IndexMap K V → List (K × V)
  pub new : {K V : Type 0} → IndexMap K V
  pub get : {K V : Type 0} ⦃e : Eq K⦄ → IndexMap K V → K → Option V
  pub set_entry : {K V : Type 0} ⦃e : Eq K⦄ → IndexMap K V → K → V → IndexMap K V
  pub shift_remove : {K V : Type 0} ⦃e : Eq K⦄ → IndexMap K V → K → IndexMap K V
  pub get_index_of : {K V : Type 0} ⦃e : Eq K⦄ → IndexMap K V → K → Option ℕ
  pub swap_indices : {K V : Type 0} → IndexMap K V → ℕ → ℕ → IndexMap K V
  pub update_values : {K V : Type 0} → (K → V → V) → IndexMap K V → IndexMap K V
  pub iter-new : {K V : Type 0} → iter (new {K = K} {V = V}) ≡ []
  pub get-iter : {K V : Type 0} ⦃e : Eq K⦄ (m : IndexMap K V) (k : K) → get m k ≡ lookup (iter m) k
  pub iter-set_entry :
      {K V : Type 0} ⦃e : Eq K⦄ (m : IndexMap K V) (k : K) (v : V)
      → iter (set_entry m k v) ≡ insert (iter m) k v
  pub iter-shift_remove :
      {K V : Type 0} ⦃e : Eq K⦄ (m : IndexMap K V) (k : K)
      → iter (shift_remove m k) ≡ remove (iter m) k
  pub get_index_of-iter :
      {K V : Type 0} ⦃e : Eq K⦄ (m : IndexMap K V) (k : K) → get_index_of m k ≡ index_of (iter m) k
  pub iter-swap_indices :
      {K V : Type 0} (m : IndexMap K V) (i j : ℕ) → iter (swap_indices m i j) ≡ swap (iter m) i j
  pub iter-update_values :
      {K V : Type 0} (f : K → V → V) (m : IndexMap K V)
      → iter (update_values f m) ≡ map_values f (iter m)
  -- indexmap::IndexSet
  pub IndexSet : Type 0 → Type 0
  pub new_set : {A : Type 0} → IndexSet A
  pub is_empty_set : {A : Type 0} → IndexSet A → Bool
  pub contains : {A : Type 0} ⦃e : Eq A⦄ → IndexSet A → A → Bool
  pub insert_member : {A : Type 0} ⦃e : Eq A⦄ → IndexSet A → A → IndexSet A
  pub remove_member : {A : Type 0} ⦃e : Eq A⦄ → IndexSet A → A → IndexSet A
  pub contains-new_set : {A : Type 0} ⦃e : Eq A⦄ (a : A) → contains new_set a ≡ false
  pub is_empty_set_iff :
      {A : Type 0} ⦃e : Eq A⦄ (s : IndexSet A)
      → (is_empty_set s ≡ true) ↔ ((a : A) → contains s a ≡ false)
  pub contains-insert_member :
      {A : Type 0} ⦃e : Eq A⦄ (s : IndexSet A) (a b : A)
      → contains (insert_member s a) b ≡ (if a == b then true else contains s b)
  pub contains-remove_member :
      {A : Type 0} ⦃e : Eq A⦄ (s : IndexSet A) (a b : A)
      → contains (remove_member s a) b ≡ (if a == b then false else contains s b)
  -- amdgpu_sysfs::gpu_handle::{PerformanceLevel, PowerLevelKind}
  pub PerformanceLevel : Type 0
  pub manual : PerformanceLevel
  pub level_eq : Eq PerformanceLevel
  pub PowerLevelKind : Type 0
  pub kind_eq : Eq PowerLevelKind
