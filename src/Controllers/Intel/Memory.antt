-- ===== src/Controllers/Intel/Memory.antt =====
-- `get_vram_info` of intel.rs: the sizes that the kernel reports for regions of memory, added up for
-- either driver. What the kernel answers and the numbers of its classes are parameters.
pub mod Exact
use yagc.Common.{
  ℕ, ◌+◌, ◌-◌, ◌%◌, ◌^◌, Bool, Option, none, some, List, [], ◌∷◌, if◌then◌else◌, nat_beq,
}
use yagc.Controllers.Intel.{DriverType, i915, xe}

-- `lact_schema::IntelVramInfo` with its `DrmMemoryInfo`.
pub record IntelVramInfo : Type 0 where
  pub total : ℕ
  pub used : ℕ
  pub cpu_accessible_used : ℕ
  pub cpu_accessible_total : ℕ
  pub resizeable_bar : Option Bool

-- What the code reads of a `drm_i915_memory_region_info`.
pub record I915Region : Type 0 where
  pub memory_class : ℕ
  pub probed_size : ℕ
  pub unallocated_size : ℕ
  pub probed_cpu_visible_size : ℕ
  pub unallocated_cpu_visible_size : ℕ

-- What the code reads of a `drm_xe_mem_region`.
pub record XeRegion : Type 0 where
  pub mem_class : ℕ
  pub total_size : ℕ
  pub used : ℕ
  pub cpu_visible_size : ℕ

-- What the loop over the regions adds up for the older driver.
pub record I915Sums : Type 0 where
  pub total : ℕ
  pub i915_unallocated : ℕ
  pub cpu_accessible_total : ℕ
  pub cpu_unallocated : ℕ

pub record XeSums : Type 0 where
  pub total : ℕ
  pub used : ℕ
  pub cpu_accessible_total : ℕ

-- `u64`, whose overflow wraps.
abbrev pub add_u64 : ℕ → ℕ → ℕ
add_u64 m n = (m + n) % 2 ^ 64

abbrev pub sub_u64 : ℕ → ℕ → ℕ
sub_u64 m n = (m + 2 ^ 64 - n) % 2 ^ 64

unfoldable pub add_cpu_visible : I915Region → I915Sums → I915Sums
add_cpu_visible region sums =
    if nat_beq region.probed_cpu_visible_size 0 then sums else record sums {
      cpu_accessible_total = add_u64 sums.cpu_accessible_total region.probed_cpu_visible_size;
      cpu_unallocated = add_u64 sums.cpu_unallocated region.unallocated_cpu_visible_size;
    }

unfoldable pub add_i915 : ℕ → I915Region → I915Sums → I915Sums
unfolding add_cpu_visible
add_i915 device_class region sums =
    if nat_beq region.memory_class device_class
    then add_cpu_visible region (record sums {
      total = add_u64 sums.total region.probed_size;
      i915_unallocated = add_u64 sums.i915_unallocated region.unallocated_size;
    })
    else sums

unfoldable pub sum_i915 : ℕ → List I915Region → I915Sums → I915Sums
unfolding add_i915
sum_i915 device_class [] sums = sums
sum_i915 device_class (region ∷ regions) sums =
    sum_i915 device_class regions (add_i915 device_class region sums)

unfoldable pub add_xe : ℕ → XeRegion → XeSums → XeSums
add_xe vram_class region sums =
    if nat_beq region.mem_class vram_class
    then record {
      total = add_u64 sums.total region.total_size;
      used = add_u64 sums.used region.used;
      cpu_accessible_total =
          if nat_beq region.cpu_visible_size 0
          then sums.cpu_accessible_total
          else add_u64 sums.cpu_accessible_total region.cpu_visible_size;
    }
    else sums

unfoldable pub sum_xe : ℕ → List XeRegion → XeSums → XeSums
unfolding add_xe
sum_xe vram_class [] sums = sums
sum_xe vram_class (region ∷ regions) sums =
    sum_xe vram_class regions (add_xe vram_class region sums)

-- `if total > 0 { used = total - unallocated; }`, with `used` at 0 before.
unfoldable pub allocated : ℕ → ℕ → ℕ
allocated total unallocated = if nat_beq total 0 then 0 else sub_u64 total unallocated

unfoldable pub vram_info : ℕ → ℕ → ℕ → ℕ → IntelVramInfo
vram_info total used cpu_accessible_used cpu_accessible_total = record {
  total = total;
  used = used;
  cpu_accessible_used = cpu_accessible_used;
  cpu_accessible_total = cpu_accessible_total;
  resizeable_bar = some (nat_beq cpu_accessible_total total);
}

abbrev pub no_i915 : I915Sums
no_i915 = record { total = 0; i915_unallocated = 0; cpu_accessible_total = 0; cpu_unallocated = 0 }

abbrev pub no_xe : XeSums
no_xe = record { total = 0; used = 0; cpu_accessible_total = 0 }

unfoldable pub i915_info : I915Sums → IntelVramInfo
unfolding vram_info allocated
i915_info sums =
    vram_info sums.total (allocated sums.total sums.i915_unallocated)
      (allocated sums.cpu_accessible_total sums.cpu_unallocated) sums.cpu_accessible_total

unfoldable pub xe_info : XeSums → IntelVramInfo
unfolding vram_info
xe_info sums = vram_info sums.total sums.used 0 sums.cpu_accessible_total

-- A query that fails or answers nothing adds nothing.
module _ (device_class vram_class : ℕ) (i915_query : Option (List I915Region))
    (xe_query : Option (List XeRegion)) where
  unfoldable pub get_vram_info : DriverType → IntelVramInfo
  unfolding vram_info i915_info xe_info sum_i915 sum_xe
  get_vram_info i915 = elim i915_query [
    | none ↦ vram_info 0 0 0 0
    | some regions ↦ i915_info (sum_i915 device_class regions no_i915)
  ]
  get_vram_info xe = elim xe_query [
    | none ↦ vram_info 0 0 0 0
    | some regions ↦ xe_info (sum_xe vram_class regions no_xe)
  ]
