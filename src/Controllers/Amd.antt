-- ===== src/Controllers/Amd.antt =====
-- lact-daemon/src/server/gpu_controller/amd.rs: the handle of `amdgpu_sysfs` through which the
-- controller reads and writes, as a parameter, and the controller's own state.
pub mod Clocks
pub mod Fans
pub mod Apply
pub mod FanEnds
pub mod FanFrames
pub mod FanTask
pub mod Frames
pub mod Level
pub mod LevelFrames
pub mod Manual
pub mod PowerCap
pub mod PowerCapFrames
use yagc.Common.{ℕ, zero, suc, ℤ, Bool, ◌≡◌, Option, List, Result, no_monitor, if◌then◌else◌}
use yagc.Common.Exec.{Exec, pure, raise}
use yagc.Crates.{Crates}
use yagc.Config.{F64, FanCurveMap, FanControlSettings}
use yagc.FanCurve.{PmfwCurve}

-- The values of the table of clocks that the configuration can set.
pub data TableValue : Type 0 where
  min_sclk min_mclk table_min_voltage max_sclk max_mclk table_max_voltage : TableValue

-- The values of the fan's firmware that are numbers.
pub data FanInfo : Type 0 where
  fan_acoustic_limit fan_acoustic_target fan_target_temperature fan_minimum_pwm : FanInfo
  fan_zero_rpm_stop_temperature : FanInfo

-- `amdgpu_sysfs::gpu_handle::GpuHandle` and its first monitor. A reading depends on the state of the
-- device, and a call that writes may change it. Some calls return a handle, which has to be
-- committed for the change to take effect.
pub record GpuHandle (X : Crates) : Type 1 where
  pub Device : Type 0
  pub CommitHandle : Type 0
  pub commit : CommitHandle → Exec Device (Unit {0})
  -- performance levels
  pub low : X.PerformanceLevel
  pub auto : X.PerformanceLevel
  pub get_power_force_performance_level : Device → Result X.PerformanceLevel
  pub set_power_force_performance_level : X.PerformanceLevel → Exec Device (Unit {0})
  -- the level of the core clock that is active, and what 250 ms change
  pub active_core_clock_level : Device → Result (Option ℕ)
  pub sleep : Device → Device
  -- the monitor, if the device has one
  pub has_monitor : Bool
  pub get_power_input : Device → Result F64
  pub get_power_average : Device → Result F64
  pub get_power_cap : Device → Result F64
  pub get_power_cap_default : Device → Result F64
  pub set_power_cap : F64 → Exec Device (Unit {0})
  pub count_temps : Device → ℕ
  pub FanControlMethod : Type 0
  pub auto_method : FanControlMethod
  pub manual_method : FanControlMethod
  pub is_auto : FanControlMethod → Bool
  pub get_fan_control_method : Device → Result FanControlMethod
  pub set_fan_control_method : FanControlMethod → Exec Device (Unit {0})
  pub set_fan_pwm : ℕ → Exec Device (Unit {0})
  -- the end of the task that follows a curve, once it is notified: what it still does, and an error
  -- if it panicked
  pub join_task : FanCurveMap × FanControlSettings → Exec Device (Unit {0})
  -- the table of clocks; a call that changes a table may fail
  pub Table : Type 0
  pub get_clocks_table : Device → Result Table
  pub set_clocks_table : Table → Exec Device CommitHandle
  pub reset_clocks_table : Exec Device (Unit {0})
  pub is_vega20 : Table → Bool
  pub is_vddc_curve_empty : Table → Bool
  pub clear_table : Table → Table
  pub normalize_vddc_curve : Table → Table
  pub set_voltage_offset : ℤ → Exec Table (Unit {0})
  pub clear_voltage_offset : Table → Table
  pub set_table_value : TableValue → ℤ → Exec Table (Unit {0})
  -- the commands from one table to the other, for the log; `ok` where the log does not show them
  pub get_commands : Table → Table → Result (Unit {0})
  -- power profiles and states
  pub set_active_power_profile_mode : ℕ → Exec Device (Unit {0})
  pub set_custom_power_profile_mode_heuristics : List (List (Option ℤ)) → Exec Device (Unit {0})
  pub set_enabled_power_levels : X.PowerLevelKind → List ℕ → Exec Device (Unit {0})
  -- the fan's firmware
  pub get_fan_curve : Device → Result PmfwCurve
  pub set_fan_curve : PmfwCurve → Exec Device CommitHandle
  pub reset_fan_curve : Exec Device (Unit {0})
  pub get_fan_info : FanInfo → Device → Result ℕ
  pub set_fan_info : FanInfo → ℕ → Exec Device CommitHandle
  pub reset_fan_info : FanInfo → Exec Device (Unit {0})
  pub get_fan_zero_rpm_enable : Device → Result Bool
  pub set_fan_zero_rpm_enable : Bool → Exec Device CommitHandle
  -- `>` and `==` of `f64`, and the cast `(f64::from(n) * ratio) as u8`
  pub above : F64 → F64 → Bool
  pub same : F64 → F64 → Bool
  pub scale : ℕ → F64 → ℕ

module _ (X : Crates) (H : GpuHandle X) where
  pub record AmdGpuController : Type 0 where
    pub device : H.Device
    -- the task that follows a curve
    pub fan_control_handle : Option (FanCurveMap × FanControlSettings)

  abbrev pub Action : Type 0 → Type 0
  Action A = Exec AmdGpuController A

  -- A call that may change the device.
  abbrev pub call : {A : Type 0} → Exec H.Device A → Action A
  call m s = let (r, d) = m s.device in (r, record s { device = d })

  -- A call that only reads.
  abbrev pub ask : {A : Type 0} → (H.Device → Result A) → Action A
  ask f s = (f s.device, s)

  -- `first_hw_mon`
  unfoldable pub first_hw_mon : Action (Unit {0})
  first_hw_mon = if H.has_monitor then pure tt else raise no_monitor
