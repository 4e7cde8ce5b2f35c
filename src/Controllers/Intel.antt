-- ===== src/Controllers/Intel.antt =====
-- lact-daemon/src/server/gpu_controller/intel.rs: frequencies and the power limit as files of sysfs,
-- and the power usage from the energy counter. The file system is a parameter.
pub mod Clocks
pub mod Energy
pub mod Files
pub mod Memory
pub mod Revert
use yagc.Common.{
  ℕ, ◌*◌, ℤ, pos, Bool, true, false, ◌≡◌, Option, none, some, List, [], ◌∷◌, ◌++◌, ◌&&◌, ◌||◌,
  nat_beq, Result, ok, err, Error, if◌then◌else◌, file_missing,
}
use yagc.Common.Exec.{Exec, pure, raise, logged, with_state, if_ok, ◌>>=◌, ◌>>◌}
use yagc.Common.Text.{starts_with, ends_with, Text, codes, text_beq}
use yagc.Crates.{Crates}
use yagc.Config.{F64, Gpu}

-- Paths and files, the texts of numbers, and the power limit in microwatts, `(cap * 1e6) as u64`.
-- `list_directory` gives the names that are texts; `parse_u64` also trims.
pub record FileSystem : Type 1 where
  pub FilePath : Type 0
  pub join : FilePath → Text → FilePath
  pub Disk : Type 0
  pub exists : FilePath → Disk → Bool
  pub read_to_string : FilePath → Disk → Result Text
  pub write : FilePath → Text → Exec Disk (Unit {0})
  pub list_directory : FilePath → Disk → Result (List Text)
  pub parse_u64 : Text → Option ℕ
  pub print_i32 : ℤ → Text
  pub print_u64 : ℕ → Text
  pub microwatts : F64 → ℕ

pub data DriverType : Type 0 where
  i915 xe : DriverType

pub data FrequencyType : Type 0 where
  cur act boost min_freq max_freq rp0 rpe rpn : FrequencyType

-- The infix of a file's name for the older driver, and its prefix for the newer one, which has no
-- boost frequency.
unfoldable pub i915_infix : FrequencyType → Text
i915_infix cur = codes "cur"
i915_infix act = codes "act"
i915_infix boost = codes "boost"
i915_infix min_freq = codes "min"
i915_infix max_freq = codes "max"
i915_infix rp0 = codes "RP0"
i915_infix rpe = codes "RP1"
i915_infix rpn = codes "RPn"

unfoldable pub xe_prefix : FrequencyType → Option Text
xe_prefix cur = some (codes "cur")
xe_prefix act = some (codes "act")
xe_prefix boost = none
xe_prefix min_freq = some (codes "min")
xe_prefix max_freq = some (codes "max")
xe_prefix rp0 = some (codes "rp0")
xe_prefix rpe = some (codes "rpe")
xe_prefix rpn = some (codes "rpn")

-- The first name with the two ends.
unfoldable pub find_name : Text → Text → List Text → Option Text
unfolding starts_with ends_with
find_name file_prefix file_suffix [] = none
find_name file_prefix file_suffix (name ∷ names) =
    let rest = find_name file_prefix file_suffix names in
    if starts_with file_prefix name && ends_with file_suffix name then some name else rest

module _ (W : FileSystem) where
  pub record IntelGpuController : Type 0 where
    pub driver_type : DriverType
    -- the parent of the device's path, which a device in sysfs always has
    pub card_path : W.FilePath
    pub tile_gts : List W.FilePath
    pub hwmon_path : Option W.FilePath
    pub disk : W.Disk
    -- the instant of the last reading in nanoseconds, and what was read
    pub last_energy_value : Option (ℕ × ℕ)

  abbrev pub Action : Type 0 → Type 0
  Action A = Exec IntelGpuController A

  unfoldable pub read_file : W.FilePath → IntelGpuController → Option ℕ
  read_file path s =
      if W.exists path s.disk
      then elim (W.read_to_string path s.disk) [ ok contents ↦ W.parse_u64 contents | err e ↦ none ]
      else none

  unfoldable pub write_file : W.FilePath → Text → Action (Unit {0})
  write_file path contents s =
      if W.exists path s.disk
      then (let (r, d) = W.write path contents s.disk in (r, record s { disk = d }))
      else (err file_missing, s)

  unfoldable pub hwmon_file : Text → Text → IntelGpuController → Option W.FilePath
  unfolding find_name
  hwmon_file file_prefix file_suffix s = elim s.hwmon_path [
    | none ↦ none
    | some hwmon_path ↦ elim (W.list_directory hwmon_path s.disk) [
      | err e ↦ none
      | ok names ↦ elim (find_name file_prefix file_suffix names) [
        | none ↦ none
        | some name ↦ some (W.join hwmon_path name)
      ]
    ]
  ]

  unfoldable pub read_hwmon_file : Text → Text → IntelGpuController → Option ℕ
  unfolding hwmon_file read_file
  read_hwmon_file file_prefix file_suffix s = elim (hwmon_file file_prefix file_suffix s) [
    | none ↦ none
    | some path ↦ read_file path s
  ]

  unfoldable pub write_hwmon_file : Text → Text → Text → Action (Unit {0})
  unfolding hwmon_file write_file
  write_hwmon_file file_prefix file_suffix contents s =
      elim (hwmon_file file_prefix file_suffix s) [
        | none ↦ (err file_missing, s)
        | some path ↦ write_file path contents s
      ]

  unfoldable pub xe_path : List W.FilePath → Option Text → Option W.FilePath
  xe_path [] name = none
  xe_path (gt_path ∷ others) none = none
  xe_path (gt_path ∷ others) (some name) =
      some (W.join (W.join gt_path (codes "freq0")) (name ++ codes "_freq"))

  unfoldable pub freq_path : IntelGpuController → FrequencyType → Option W.FilePath
  unfolding i915_infix xe_prefix xe_path
  freq_path s freq = elim s.driver_type [
    | i915 ↦ some (W.join s.card_path (codes "gt_" ++ i915_infix freq ++ codes "_freq_mhz"))
    | xe ↦ xe_path s.tile_gts (xe_prefix freq)
  ]

  unfoldable pub read_freq : FrequencyType → IntelGpuController → Option ℕ
  unfolding freq_path read_file
  read_freq freq s = elim (freq_path s freq) [ none ↦ none | some path ↦ read_file path s ]

  unfoldable pub write_freq : FrequencyType → ℤ → Action (Unit {0})
  unfolding freq_path write_file
  write_freq freq value s = elim (freq_path s freq) [
    | none ↦ (err file_missing, s)
    | some path ↦ write_file path (W.print_i32 value) s
  ]
