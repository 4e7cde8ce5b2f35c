-- ===== src/Controllers/Amd/Apply.antt =====
-- `apply_config` of amd.rs, put together from its parts.
use yagc.Common.{
  ℕ, ℤ, Bool, true, false, Option, none, some, List, [], ◌∷◌, ◌++◌, if◌then◌else◌, is_empty,
  manual_level_required, no_fan_settings, not,
}
use yagc.Common.Exec.{pure, raise, logged, ◌>>=◌, ◌>>◌}
use yagc.Crates.{Crates}
use yagc.Config.{FanControlSettings, PmfwOptions, Gpu}
use yagc.FanCurve.{Floats}
use yagc.Controllers.Amd.{
  GpuHandle, Action, call, ask, fan_acoustic_limit, fan_acoustic_target, fan_target_temperature,
  fan_minimum_pwm, fan_zero_rpm_stop_temperature,
}
use yagc.Controllers.Amd.PowerCap.{apply_power_cap}
use yagc.Controllers.Amd.Clocks.{apply_clocks}
use yagc.Controllers.Amd.Fans.{stop_fan_control, set_changed, control_fans}

module _ (X : Crates) (H : GpuHandle X) where
  unfoldable pub set_level : Option X.PerformanceLevel → Action X H (Unit {0})
  set_level none = pure tt
  set_level (some level) = call X H (H.set_power_force_performance_level level)

  unfoldable pub is_manual : Option X.PerformanceLevel → Bool
  is_manual none = false
  is_manual (some level) = X.level_eq.test level X.manual

  unfoldable pub require_manual : Option X.PerformanceLevel → Action X H (Unit {0})
  unfolding is_manual
  require_manual level = if is_manual level then pure tt else raise manual_level_required

  unfoldable pub set_profile_mode :
      Option X.PerformanceLevel → List (List (Option ℤ)) → Option ℕ → Action X H (Unit {0})
  unfolding require_manual
  set_profile_mode level heuristics none = pure tt
  set_profile_mode level heuristics (some mode_index) = do
    require_manual level
    if is_empty heuristics
        then call X H (H.set_active_power_profile_mode mode_index)
        else call X H (H.set_custom_power_profile_mode_heuristics heuristics)

  unfoldable pub set_zero_rpm : Option Bool → Action X H (List H.CommitHandle)
  set_zero_rpm none = pure []
  set_zero_rpm (some zero_rpm) = do
    current ← ask X H H.get_fan_zero_rpm_enable
    if (if current then zero_rpm else not zero_rpm)
        then pure []
        else (do handle ← call X H (H.set_fan_zero_rpm_enable zero_rpm); pure (handle ∷ []))

  unfoldable pub commit_all : List H.CommitHandle → Action X H (Unit {0})
  commit_all [] = pure tt
  commit_all (handle ∷ handles) = do call X H (H.commit handle); commit_all handles

  unfoldable pub set_power_states :
      Option X.PerformanceLevel → List (X.PowerLevelKind × List ℕ) → Action X H (Unit {0})
  unfolding require_manual
  set_power_states level [] = pure tt
  set_power_states level ((kind, states) ∷ rest) = do
    require_manual level
    call X H (H.set_enabled_power_levels kind states)
    set_power_states level rest

  -- Without fan control the options of the firmware are set.
  unfoldable pub set_pmfw_options : PmfwOptions → Action X H (List H.CommitHandle)
  unfolding set_changed stop_fan_control
  set_pmfw_options pmfw = do
    limit ← set_changed X H fan_acoustic_limit pmfw.acoustic_limit
    target ← set_changed X H fan_acoustic_target pmfw.acoustic_target
    temperature ← set_changed X H fan_target_temperature pmfw.target_temperature
    minimum ← set_changed X H fan_minimum_pwm pmfw.minimum_pwm
    stop_fan_control X H true
    pure (limit ++ target ++ temperature ++ minimum)

  -- What the level is reset to: a Steam Deck only takes clocks at the manual level.
  unfoldable pub base_level : Bool → X.PerformanceLevel
  base_level true = X.manual
  base_level false = H.auto

  -- The end of `apply_config`, where all changes take effect.
  unfoldable pub finish_apply : Gpu X → List H.CommitHandle → Action X H (Unit {0})
  unfolding set_zero_rpm set_changed commit_all set_power_states
  finish_apply config handles = do
    zero_rpm ← set_zero_rpm config.pmfw_options.zero_rpm
    threshold ← set_changed X H fan_zero_rpm_stop_temperature config.pmfw_options.zero_rpm_threshold
    commit_all (handles ++ zero_rpm ++ threshold)
    set_power_states config.performance_level (X.iter config.power_states)

module _ (X : Crates) (H : GpuHandle X) (F : Floats) where
  unfoldable pub apply_fans :
      Bool → Option FanControlSettings → PmfwOptions → Action X H (List H.CommitHandle)
  unfolding set_pmfw_options control_fans
  apply_fans false settings pmfw = set_pmfw_options X H pmfw
  apply_fans true none pmfw = raise no_fan_settings
  apply_fans true (some settings) pmfw = control_fans X H F settings.mode settings

  -- The first argument tells whether the device is a Steam Deck.
  unfoldable pub apply_config : Bool → Gpu X → Action X H (Unit {0})
  unfolding apply_power_cap base_level apply_clocks set_level set_profile_mode apply_fans
      finish_apply
  apply_config is_steam_deck config = do
    apply_power_cap X H config.power_cap
    logged (call X H H.reset_clocks_table)
    logged (call X H (H.set_power_force_performance_level (base_level X H is_steam_deck)))
    table ← apply_clocks X H config
    set_level X H config.performance_level
    set_profile_mode X H config.performance_level config.custom_power_profile_mode_hueristics
        config.power_profile_mode_index
    fans ← apply_fans config.fan_control_enabled config.fan_control_settings config.pmfw_options
    finish_apply X H config (table ++ fans)
