-- ===== src/Handler/Settings.antt =====
-- The methods of lact-daemon/src/server/handler.rs that change one GPU's settings: each is an edit
-- of that GPU's configuration, and some do something to the GPU or the configuration first.
pub mod Effects
use yagc.Common.{
  ℕ, ℤ, Bool, true, false, Option, none, some, List, [], ◌∷◌, String, ◌==◌, ◌&&◌, not, string_eq,
  Result, ok, err, Error, if◌then◌else◌, is_empty, unwrap_or, speed_out_of_range,
}
use mathlib.Core.Option
use yagc.Common.Exec.{Exec, pure, raise, lift, gets, modify, logged, ◌>>=◌, ◌>>◌}
use yagc.Crates.{Crates}
use yagc.Config.{
  F64, in_unit_range_f64, FanControlMode, static, curve, FanCurveMap, default_fan_curve,
  default_fan_static_speed, FanControlSettings, default_fan_control_settings, PmfwOptions,
  default_pmfw_options, Gpu, default_gpu, Config,
}
use yagc.Config.Clocks.{
  SetClocksCommand, ClockspeedType, reset, apply_clocks_command, apply_clocks_commands,
}
use yagc.Config.Profiles.{gpus, with_gpus}
use yagc.FanCurve.{validate}
use yagc.Handler.{Env, Handler, Action, on_hardware, controller_by_id}
use yagc.Handler.Edit.{edit_gpu_config}

pub record FanOptions : Type 0 where
  pub id : String
  pub enabled : Bool
  pub mode : Option FanControlMode
  pub static_speed : Option F64
  pub curve_points : Option FanCurveMap
  pub pmfw : PmfwOptions
  pub spindown_delay_ms : Option ℕ
  pub change_threshold : Option ℕ

-- `matches!(opts.static_speed, Some(speed) if !(0.0..=1.0).contains(&speed))`
unfoldable pub is_out_of_range : Option F64 → Bool
unfolding in_unit_range_f64
is_out_of_range none = false
is_out_of_range (some speed) = not (in_unit_range_f64 speed)

-- `if let Some(value) = new { old = Some(value) }`
abbrev pub or_else : {A : Type 0} → Option A → Option A → Option A
or_else (some a) old = some a
or_else none old = old

unfoldable pub static_settings : FanOptions → Option FanControlSettings → Result FanControlSettings
unfolding is_out_of_range
static_settings opts existing =
    if is_out_of_range opts.static_speed
    then err speed_out_of_range
    else ok (elim existing [
      | some settings ↦ record settings {
        mode = static;
        static_speed = unwrap_or opts.static_speed settings.static_speed;
      }
      | none ↦ record default_fan_control_settings {
        mode = static;
        static_speed = unwrap_or opts.static_speed default_fan_static_speed;
      }
    ])

unfoldable pub checked_curve :
    FanCurveMap → FanControlSettings → Result (Unit {0}) → Result FanControlSettings
checked_curve points settings (ok _) = ok (record settings { curve_points = points })
checked_curve points settings (err e) = err e

unfoldable pub curve_settings : FanOptions → Option FanControlSettings → Result FanControlSettings
unfolding checked_curve
curve_settings opts (some existing) =
    let settings = record existing {
      mode = curve;
      change_threshold = or_else opts.change_threshold existing.change_threshold;
      spindown_delay_ms = or_else opts.spindown_delay_ms existing.spindown_delay_ms;
    } in
    elim opts.curve_points [
      | none ↦ ok settings
      | some raw_curve ↦ checked_curve raw_curve settings (validate raw_curve)
    ]
curve_settings opts none =
    let points = unwrap_or opts.curve_points default_fan_curve in
    checked_curve points
      (record default_fan_control_settings {
        mode = curve;
        change_threshold = opts.change_threshold;
        spindown_delay_ms = opts.spindown_delay_ms;
      })
      (validate points)

-- The settings that a request asks for; `none` leaves those that are there.
unfoldable pub fan_settings :
    FanOptions
    → Option FanControlMode
    → Option FanControlSettings
    → Result (Option FanControlSettings)
unfolding static_settings curve_settings
fan_settings opts none existing = ok none
fan_settings opts (some static) existing = elim (static_settings opts existing) [
  | ok s ↦ ok (some s)
  | err e ↦ err e
]
fan_settings opts (some curve) existing = elim (curve_settings opts existing) [
  | ok s ↦ ok (some s)
  | err e ↦ err e
]

unfoldable pub is_reset : ClockspeedType → Bool
is_reset reset = true
is_reset _ = false

module _ (X : Crates) where
  unfoldable pub with_fan_settings : FanOptions → Option FanControlSettings → Gpu X → Gpu X
  with_fan_settings opts settings gpu = record gpu {
    fan_control_enabled = opts.enabled;
    fan_control_settings = or_else settings gpu.fan_control_settings;
    pmfw_options = opts.pmfw;
  }

module _ (X : Crates) (E : Env X) where
  -- `gpus_mut()?.entry(id).or_default()`: the GPU is in the configuration afterwards.
  unfoldable pub entry_or_default : String → Action X E (Gpu X)
  entry_or_default id = do
    c ← gets (λ h. h.config)
    m ← lift (gpus X c)
    let gpu_config = unwrap_or (X.get m id) (default_gpu X)
    c' ← lift (with_gpus X c (X.set_entry m id gpu_config))
    modify (λ h. record h { config = c' })
    pure gpu_config

  unfoldable pub set_fan_control : FanOptions → Action X E ℕ
  unfolding entry_or_default fan_settings with_fan_settings
  set_fan_control opts = do
    gpu_config ← entry_or_default opts.id
    settings ← lift (fan_settings opts opts.mode gpu_config.fan_control_settings)
    edit_gpu_config X E opts.id (with_fan_settings X opts settings)

  unfoldable pub reset_pmfw : String → Action X E ℕ
  reset_pmfw id = do
    controller_by_id X E id
    modify (λ h. record h { hardware = E.reset_pmfw_settings id h.hardware })
    edit_gpu_config X E id (λ gpu. record gpu { pmfw_options = default_pmfw_options })

  unfoldable pub set_power_cap : String → Option F64 → Action X E ℕ
  set_power_cap id maybe_cap = edit_gpu_config X E id (λ gpu. record gpu { power_cap = maybe_cap })

  -- The power states are only for the manual level.
  unfoldable pub with_performance_level : X.PerformanceLevel → Gpu X → Gpu X
  with_performance_level level gpu =
      let t = record gpu { performance_level = some level } in
      if not (X.level_eq.test level X.manual) then record t { power_states = X.new } else t

  unfoldable pub set_performance_level : String → X.PerformanceLevel → Action X E ℕ
  unfolding with_performance_level
  set_performance_level id level = edit_gpu_config X E id (with_performance_level level)

  unfoldable pub set_clocks_value : String → SetClocksCommand → Action X E ℕ
  unfolding is_reset controller_by_id
  set_clocks_value id command = do
    if is_reset command.kind
        then (controller_by_id X E id >> on_hardware X E (E.cleanup_clocks id))
        else pure tt
    edit_gpu_config X E id (λ gpu. apply_clocks_command X gpu command)

  unfoldable pub batch_set_clocks_value : String → List SetClocksCommand → Action X E ℕ
  batch_set_clocks_value id commands =
      edit_gpu_config X E id (λ gpu. apply_clocks_commands X gpu commands)

  unfoldable pub set_power_profile_mode : String → Option ℕ → List (List (Option ℤ)) → Action X E ℕ
  set_power_profile_mode id index custom_heuristics = edit_gpu_config X E id (λ gpu. record gpu {
    power_profile_mode_index = index;
    custom_power_profile_mode_hueristics = custom_heuristics;
  })

  -- An empty list of states means that there is no restriction.
  unfoldable pub with_power_states : X.PowerLevelKind → List ℕ → Gpu X → Gpu X
  with_power_states kind enabled_states gpu = record gpu {
    power_states =
        if is_empty enabled_states
        then X.shift_remove ⦃e = X.kind_eq⦄ gpu.power_states kind
        else X.set_entry ⦃e = X.kind_eq⦄ gpu.power_states kind enabled_states;
  }

  unfoldable pub set_enabled_power_states : String → X.PowerLevelKind → List ℕ → Action X E ℕ
  unfolding with_power_states
  set_enabled_power_states id kind enabled_states =
      edit_gpu_config X E id (with_power_states kind enabled_states)
