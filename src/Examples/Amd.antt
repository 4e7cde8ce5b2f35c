-- ===== src/Examples/Amd.antt =====
-- A controller for an AMD card, on a device that holds a performance level and the fan's method.
use yagc.Common.{
  ◌≡◌, refl, inl, ℕ, true, false, none, some, List, [], ◌∷◌, ℤ, ok, err, Error, controller_failed,
  arith, nat_beq, ltb,
}
use yagc.Config.{Gpu, default_gpu, default_fan_control_settings}
use yagc.Controllers.Amd.{GpuHandle, AmdGpuController}
use yagc.Controllers.Amd.Apply.{apply_config}
use yagc.Controllers.Amd.LevelFrames.{KeepsLevel}
use yagc.Controllers.Amd.Level.{apply_config-level}
use yagc.Controllers.Amd.Manual.{apply_config-needs_manual}
use yagc.Controllers.Amd.FanEnds.{fan_task}
use yagc.Controllers.Amd.FanTask.{apply_config-fan_task}
use yagc.Examples.{crates}
use yagc.Examples.Fans.{coarse}

-- The level and the method; 0 is automatic for both.
abbrev Card : Type 0
Card = ℕ × ℕ

abbrev handle : GpuHandle crates
handle = record {
  Device = Card;
  CommitHandle = ℕ;
  commit = λ c d. (ok tt, d);
  low = 1;
  auto = 0;
  get_power_force_performance_level = λ d. ok d.0;
  set_power_force_performance_level = λ level d. (ok tt, (level, d.1));
  active_core_clock_level = λ d. ok (some 0);
  sleep = λ d. d;
  has_monitor = true;
  get_power_input = λ d. err controller_failed;
  get_power_average = λ d. ok 150;
  get_power_cap = λ d. ok 200;
  get_power_cap_default = λ d. ok 200;
  set_power_cap = λ limit d. (ok tt, d);
  count_temps = λ d. 3;
  FanControlMethod = ℕ;
  auto_method = 0;
  manual_method = 1;
  is_auto = λ m. nat_beq m 0;
  get_fan_control_method = λ d. ok d.1;
  set_fan_control_method = λ m d. (ok tt, (d.0, m));
  set_fan_pwm = λ pwm d. (ok tt, d);
  Table = List ℤ;
  get_clocks_table = λ d. ok [];
  set_clocks_table = λ t d. (ok 7, d);
  reset_clocks_table = λ d. (ok tt, d);
  is_vega20 = λ t. false;
  is_vddc_curve_empty = λ t. true;
  clear_table = λ t. [];
  normalize_vddc_curve = λ t. t;
  set_voltage_offset = λ v t. (ok tt, v ∷ t);
  clear_voltage_offset = λ t. t;
  set_table_value = λ field v t. (ok tt, v ∷ t);
  get_commands = λ old new. ok tt;
  set_active_power_profile_mode = λ m d. (ok tt, d);
  set_custom_power_profile_mode_heuristics = λ l d. (ok tt, d);
  set_enabled_power_levels = λ k l d. (ok tt, d);
  get_fan_curve = λ d. err controller_failed;
  set_fan_curve = λ c d. (ok 8, d);
  join_task = λ task d. (ok tt, d);
  reset_fan_curve = λ d. (ok tt, d);
  get_fan_info = λ i d. ok 50;
  set_fan_info = λ i n d. (ok 9, d);
  reset_fan_info = λ i d. (ok tt, d);
  get_fan_zero_rpm_enable = λ d. ok false;
  set_fan_zero_rpm_enable = λ b d. (ok 10, d);
  above = λ x y. ltb y x;
  same = nat_beq;
  scale = λ n r. n;
}

handle-KeepsLevel : KeepsLevel crates handle
handle-KeepsLevel = record {
  level = λ d. d.0;
  sets = λ l d h. refl;
  commit = λ c. record { kept = λ d. refl };
  method = λ m. record { kept = λ d. refl };
  pwm = λ n. record { kept = λ d. refl };
  table = λ t. record { kept = λ d. refl };
  mode = λ n. record { kept = λ d. refl };
  heuristics = λ l. record { kept = λ d. refl };
  power_levels = λ k l. record { kept = λ d. refl };
  fan_curve = λ c. record { kept = λ d. refl };
  join_task = λ task. record { kept = λ d. refl };
  reset_fan_curve = record { kept = λ d. refl };
  fan_info = λ i n. record { kept = λ d. refl };
  zero_rpm = λ b. record { kept = λ d. refl };
}

-- The manual level with a profile mode, a power limit below the usage, and a fan curve.
abbrev tuned : Gpu crates
tuned = record (default_gpu crates) {
  performance_level = some 3;
  power_profile_mode_index = some 1;
  power_cap = some 120;
  fan_control_enabled = true;
  fan_control_settings = some default_fan_control_settings;
}

abbrev idle : AmdGpuController crates handle
idle = record { device = (0, 0); fan_control_handle = none }

tuned_applied : (apply_config crates handle coarse false tuned idle).0 ≡ ok tt
unfolding apply_config
tuned_applied = refl

apply_config-level_example :
    handle-KeepsLevel.level (apply_config crates handle coarse false tuned idle).1.device ≡ 3
apply_config-level_example =
    apply_config-level crates handle handle-KeepsLevel coarse false tuned idle (λ d. refl)
      tuned_applied

apply_config-fan_task_example :
    (apply_config crates handle coarse false tuned idle).1.fan_control_handle
    ≡ some (default_fan_control_settings.curve_points, default_fan_control_settings)
unfolding fan_task
apply_config-fan_task_example =
    apply_config-fan_task crates handle coarse false false tuned idle (λ d. refl) (λ h. refl)
      tuned_applied

apply_config-needs_manual_example :
    (e : Error) × ((apply_config crates handle coarse false
        (record tuned { performance_level = some 0 })
        idle).0
      ≡ err e)
apply_config-needs_manual_example =
    apply_config-needs_manual crates handle coarse false
      (record tuned { performance_level = some 0 }) idle (λ h. ground (arith, h))
      (inl (λ h. ground (arith, h)))
