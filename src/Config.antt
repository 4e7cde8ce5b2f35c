-- ===== src/Config.antt =====
-- The daemon's configuration, lact-daemon/src/config.rs, with the types of lact-schema/src/lib.rs
-- and lact-schema/src/request.rs that it holds. A float is kept as its IEEE 754 bit pattern,
-- which the configuration only stores and requests compare with 0 and 1.
pub mod Clocks
pub mod Migration
pub mod Profiles
pub mod Reload
use yagc.Common.{
  ℕ, ℤ, Bool, true, false, Option, none, some, List, [], ◌∷◌, String, pos, leb, nat_beq, ◌||◌,
}
use yagc.Crates.{Crates}
use yagc.Rules.{ProfileRule}

abbrev pub F32 : Type 0
F32 = ℕ

abbrev pub F64 : Type 0
F64 = ℕ

-- `(0.0..=1.0).contains(..)`: the patterns from +0.0 to 1.0, and -0.0; a NaN is not among them.
unfoldable pub in_unit_range_f32 : F32 → Bool
in_unit_range_f32 x = leb x 0x3F800000 || nat_beq x 0x80000000

unfoldable pub in_unit_range_f64 : F64 → Bool
in_unit_range_f64 x = leb x 0x3FF0000000000000 || nat_beq x 0x8000000000000000

pub data FanControlMode : Type 0 where
  static curve : FanControlMode

-- `BTreeMap<i32, f32>`, in the order of its keys.
abbrev pub FanCurveMap : Type 0
FanCurveMap = List (ℤ × F32)

-- 40: 0.2, 50: 0.35, 60: 0.5, 70: 0.75, 80: 1.0
abbrev pub default_fan_curve : FanCurveMap
default_fan_curve =
    (pos 40, 0x3E4CCCCD)
    ∷ (pos 50, 0x3EB33333)
    ∷ (pos 60, 0x3F000000)
    ∷ (pos 70, 0x3F400000)
    ∷ (pos 80, 0x3F800000)
    ∷ []

-- 0.5
abbrev pub default_fan_static_speed : F64
default_fan_static_speed = 0x3FE0000000000000

pub record FanControlSettings : Type 0 where
  pub mode : FanControlMode
  pub static_speed : F64
  pub temperature_key : String
  pub interval_ms : ℕ
  pub curve_points : FanCurveMap
  pub spindown_delay_ms : Option ℕ
  pub change_threshold : Option ℕ

abbrev pub default_fan_control_settings : FanControlSettings
default_fan_control_settings = record {
  mode = curve;
  static_speed = default_fan_static_speed;
  temperature_key = "edge";
  interval_ms = 500;
  curve_points = default_fan_curve;
  spindown_delay_ms = none;
  change_threshold = none;
}

pub record PmfwOptions : Type 0 where
  pub acoustic_limit : Option ℕ
  pub acoustic_target : Option ℕ
  pub minimum_pwm : Option ℕ
  pub target_temperature : Option ℕ
  pub zero_rpm : Option Bool
  pub zero_rpm_threshold : Option ℕ

abbrev pub default_pmfw_options : PmfwOptions
default_pmfw_options = record {
  acoustic_limit = none;
  acoustic_target = none;
  minimum_pwm = none;
  target_temperature = none;
  zero_rpm = none;
  zero_rpm_threshold = none;
}

pub record Daemon : Type 0 where
  pub log_level : String
  pub admin_groups : List String
  pub disable_clocks_cleanup : Bool
  pub tcp_listen_address : Option String

abbrev pub default_daemon : Daemon
default_daemon = record {
  log_level = "info";
  admin_groups = "wheel" ∷ "sudo" ∷ [];
  disable_clocks_cleanup = false;
  tcp_listen_address = none;
}

module _ (X : Crates) where
  pub record ClocksConfiguration : Type 0 where
    pub min_core_clock : Option ℤ
    pub min_memory_clock : Option ℤ
    pub min_voltage : Option ℤ
    pub max_core_clock : Option ℤ
    pub max_memory_clock : Option ℤ
    pub max_voltage : Option ℤ
    pub gpu_clock_offsets : X.IndexMap ℕ ℤ
    pub mem_clock_offsets : X.IndexMap ℕ ℤ
    pub voltage_offset : Option ℤ

  abbrev pub default_clocks : ClocksConfiguration
  default_clocks = record {
    min_core_clock = none;
    min_memory_clock = none;
    min_voltage = none;
    max_core_clock = none;
    max_memory_clock = none;
    max_voltage = none;
    gpu_clock_offsets = X.new;
    mem_clock_offsets = X.new;
    voltage_offset = none;
  }

  pub record Gpu : Type 0 where
    pub fan_control_enabled : Bool
    pub fan_control_settings : Option FanControlSettings
    pub pmfw_options : PmfwOptions
    pub power_cap : Option F64
    pub performance_level : Option X.PerformanceLevel
    pub clocks_configuration : ClocksConfiguration
    pub power_profile_mode_index : Option ℕ
    pub custom_power_profile_mode_hueristics : List (List (Option ℤ))
    pub power_states : X.IndexMap X.PowerLevelKind (List ℕ)

  abbrev pub default_gpu : Gpu
  default_gpu = record {
    fan_control_enabled = false;
    fan_control_settings = none;
    pmfw_options = default_pmfw_options;
    power_cap = none;
    performance_level = none;
    clocks_configuration = default_clocks;
    power_profile_mode_index = none;
    custom_power_profile_mode_hueristics = [];
    power_states = X.new;
  }

  pub record Profile : Type 0 where
    pub gpus : X.IndexMap String Gpu
    pub rule : Option ProfileRule

  abbrev pub empty_profile : Profile
  empty_profile = record { gpus = X.new; rule = none }

  pub record Config : Type 0 where
    pub version : ℕ
    pub daemon : Daemon
    pub apply_settings_timer : ℕ
    pub gpus : X.IndexMap String Gpu
    pub profiles : X.IndexMap String Profile
    pub current_profile : Option String
    pub auto_switch_profiles : Bool

  abbrev pub default_config : Config
  default_config = record {
    version = 0;
    daemon = default_daemon;
    apply_settings_timer = 5;
    gpus = X.new;
    profiles = X.new;
    current_profile = none;
    auto_switch_profiles = false;
  }
