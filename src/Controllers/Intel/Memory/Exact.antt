-- ===== src/Controllers/Intel/Memory/Exact.antt =====
-- The memory that `get_vram_info` of intel.rs reports for the older driver against the exact sums.
use yagc.Common.{
  ℕ, ◌+◌, ◌≤◌, ◌<◌, ◌^◌, ◌≡◌, Option, some, List, [], ◌∷◌, if◌then◌else◌, nat_beq, arith,
}
use yagc.Controllers.Intel.{i915}
use yagc.Controllers.Intel.Memory.{
  I915Region, I915Sums, XeRegion, add_cpu_visible, add_i915, sum_i915, no_i915, allocated,
  i915_info, vram_info, get_vram_info,
}

module _ (device_class : ℕ) where
  -- The sum of a size over the regions of the card's own memory.
  unfoldable pub on_card : (I915Region → ℕ) → List I915Region → ℕ
  on_card size [] = 0
  on_card size (region ∷ regions) =
      (if nat_beq region.memory_class device_class then size region else 0) + on_card size regions

  -- No region has more unallocated than there is.
  pub data Consistent : List I915Region → Type 0 where
    none_left : Consistent []
    region_left :
        (region : I915Region) (regions : List I915Region)
        → region.unallocated_size ≤ region.probed_size
        → Consistent regions
        → Consistent (region ∷ regions)

  on_card_≤ :
      (regions : List I915Region)
      → Consistent regions
      → on_card (λ r. r.unallocated_size) regions ≤ on_card (λ r. r.probed_size) regions
  unfolding on_card
  on_card_≤ [] none_left = ground arith
  on_card_≤ (region ∷ regions) (region_left _ _ h c) = ground (arith, h, on_card_≤ regions c)

  -- One region adds its sizes, as long as the sums do not wrap.
  add_i915-sums :
      (region : I915Region) (sums : I915Sums)
      → sums.total + on_card (λ r. r.probed_size) (region ∷ []) < 2 ^ 64
      → sums.i915_unallocated + on_card (λ r. r.unallocated_size) (region ∷ []) < 2 ^ 64
      → ((add_i915 device_class region sums).total
          ≡ sums.total + on_card (λ r. r.probed_size) (region ∷ []))
        × ((add_i915 device_class region sums).i915_unallocated
            ≡ sums.i915_unallocated + on_card (λ r. r.unallocated_size) (region ∷ []))
  unfolding add_i915 add_cpu_visible on_card
  add_i915-sums region sums h w = (ground (arith, h, w), ground (arith, h, w))

  sum_i915-sums :
      (regions : List I915Region) (sums : I915Sums)
      → sums.total + on_card (λ r. r.probed_size) regions < 2 ^ 64
      → sums.i915_unallocated + on_card (λ r. r.unallocated_size) regions < 2 ^ 64
      → ((sum_i915 device_class regions sums).total
          ≡ sums.total + on_card (λ r. r.probed_size) regions)
        × ((sum_i915 device_class regions sums).i915_unallocated
            ≡ sums.i915_unallocated + on_card (λ r. r.unallocated_size) regions)
  unfolding sum_i915 on_card
  sum_i915-sums [] sums h w = (omega arith, omega arith)
  sum_i915-sums (region ∷ regions) sums h w =
      let (t, u) = add_i915-sums region sums (omega (arith, h)) (omega (arith, w)) in
      let (t', u') =
        sum_i915-sums regions (add_i915 device_class region sums) (omega (arith, t, h))
          (omega (arith, u, w)) in
      (omega (arith, t, t'), omega (arith, u, u'))

  sums_from_0 :
      (regions : List I915Region)
      → on_card (λ r. r.probed_size) regions < 2 ^ 64
      → on_card (λ r. r.unallocated_size) regions < 2 ^ 64
      → ((sum_i915 device_class regions no_i915).total ≡ on_card (λ r. r.probed_size) regions)
        × ((sum_i915 device_class regions no_i915).i915_unallocated
            ≡ on_card (λ r. r.unallocated_size) regions)
  sums_from_0 regions h w =
      let (t, u) = sum_i915-sums regions no_i915 (omega (arith, h)) (omega (arith, w)) in
      (omega (arith, t), omega (arith, u))

  allocated-fits :
      (total unallocated : ℕ)
      → unallocated ≤ total
      → total < 2 ^ 64
      → allocated total unallocated + unallocated ≡ total
  unfolding allocated
  allocated-fits total unallocated h w = ground (arith, h, w)

  -- For the older driver, where no region has more unallocated than its size and the sizes of the
  -- card's regions add up to less than 2 ^ 64, the total is that sum, and what is in use together
  -- with what is unallocated makes it up.
  get_vram_info-exact :
      (vram_class : ℕ) (regions : List I915Region) (xe_query : Option (List XeRegion))
      → Consistent regions
      → on_card (λ r. r.probed_size) regions < 2 ^ 64
      → ((get_vram_info device_class vram_class (some regions) xe_query i915).total
          ≡ on_card (λ r. r.probed_size) regions)
        × ((get_vram_info device_class vram_class (some regions) xe_query i915).used
              + on_card (λ r. r.unallocated_size) regions
            ≡ on_card (λ r. r.probed_size) regions)
  unfolding get_vram_info i915_info vram_info allocated
  get_vram_info-exact vram_class regions xe_query c h =
      let below = on_card_≤ regions c in
      let (t, u) = sums_from_0 regions h (omega (arith, h, below)) in
      (t, rw (t, u) (allocated-fits _ _ below h))
