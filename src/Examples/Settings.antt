-- ===== src/Examples/Settings.antt =====
-- Settings of one GPU: clocks, fans and power states; and the start of the daemon.
use yagc.Common.{◌≡◌, refl, pos, true, none, some, [], ◌∷◌, nat_eq, ok, is_some}
use yagc.Config.{
  Gpu, default_gpu, F64, FanControlSettings, static, default_fan_control_settings,
  default_pmfw_options, in_unit_range_f64,
}
use yagc.Config.Clocks.{ClockspeedType, max_core_clock, SetClocksCommand, apply_clocks_command}
use yagc.Config.Clocks.Settings.{setting, setting_after, setting-apply_clocks_command}
use yagc.Handler.Settings.{FanOptions, fan_settings, static_settings, is_out_of_range}
use yagc.Handler.Requests.Invariants.{IsSound}
use yagc.Handler.Startup.{with_base_path, with_base_path-IsSound}
use yagc.Examples.{crates, env, two_profiles}

abbrev plain : Gpu crates
plain = default_gpu crates

abbrev faster : SetClocksCommand
faster = record { kind = max_core_clock; value = some (pos 2100) }

setting-apply_clocks_command_example :
    ((other : ClockspeedType)
      → setting crates (apply_clocks_command crates plain faster).clocks_configuration other
        ≡ setting_after crates max_core_clock other
            (some (pos 2100))
            (setting crates plain.clocks_configuration other))
    × (record (apply_clocks_command crates plain faster) {
      clocks_configuration = plain.clocks_configuration;
    }
        ≡ plain)
setting-apply_clocks_command_example = setting-apply_clocks_command crates plain faster

-- 0.75
abbrev three_quarters : F64
three_quarters = 0x3FE8000000000000

abbrev fixed_speed : FanOptions
fixed_speed = record {
  id = "gpu0";
  enabled = true;
  mode = some static;
  static_speed = some three_quarters;
  curve_points = none;
  pmfw = default_pmfw_options;
  spindown_delay_ms = none;
  change_threshold = none;
}

abbrev fixed_settings : FanControlSettings
fixed_settings = record default_fan_control_settings {
  mode = static;
  static_speed = three_quarters;
}

fixed_settings_made : fan_settings fixed_speed (some static) none ≡ ok (some fixed_settings)
unfolding fan_settings static_settings is_out_of_range in_unit_range_f64
fixed_settings_made = refl

with_base_path-IsSound_example :
    let h = with_base_path crates env two_profiles ("gpu0" ∷ []) [] [] in
    IsSound crates env h
    × (h.config ≡ two_profiles)
    × (h.disk ≡ [])
    × (is_some h.profile_watcher_tx ≡ two_profiles.auto_switch_profiles)
with_base_path-IsSound_example =
    with_base_path-IsSound crates env two_profiles ("gpu0" ∷ []) [] [] refl
