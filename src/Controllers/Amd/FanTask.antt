-- ===== src/Controllers/Amd/FanTask.antt =====
-- The task that follows a fan curve after a configuration was applied.
use yagc.Common.{◌≡◌, refl, Bool, true, Option, none, some, List, ◌++◌, ok}
use yagc.Common.Exec.{logged, ◌>>=◌, ◌>>◌}
use yagc.Common.Triples.{Keeps, Keeps-Ensures, Ensures, Ensures-bind}
use yagc.Crates.{Crates}
use yagc.Config.{Gpu}
use yagc.FanCurve.{Floats}
use yagc.Controllers.Amd.{GpuHandle, AmdGpuController, Action, call}
use yagc.Controllers.Amd.PowerCap.{apply_power_cap}
use yagc.Controllers.Amd.Clocks.{apply_clocks}
use yagc.Controllers.Amd.Apply.{
  set_level, set_profile_mode, base_level, finish_apply, apply_fans, apply_config,
}
use yagc.Controllers.Amd.Frames.{apply_clocks-Keeps, set_profile_mode-Keeps, finish_apply-Keeps}
use yagc.Controllers.Amd.PowerCapFrames.{apply_power_cap-Keeps}
use yagc.Controllers.Amd.FanEnds.{
  is_ok, fan_task, task, Task, Stands, undisturbed, apply_fans-Ensures,
}

module _ (X : Crates) (H : GpuHandle X) (F : Floats) where
  -- A part that leaves the task as it is.
  keep_on :
      {A B : Type 0} {before : Task X H} (m : Action X H A) (next : A → Action X H B)
      (goal : B → AmdGpuController X H → Type 0)
      → Keeps (task X H) m
      → ((a : A) → Ensures (λ s. task X H s ≡ before) (next a) goal)
      → Ensures (λ s. task X H s ≡ before) (m >>= next) goal
  keep_on {before} m next goal keeps later =
      Ensures-bind (λ s. task X H s ≡ before) m (Stands X H before) next goal
        (Keeps-Ensures (task X H) m before keeps) later

  set_level-Keeps : (level : Option X.PerformanceLevel) → Keeps (task X H) (set_level X H level)
  unfolding set_level
  set_level-Keeps none = record { kept = λ s. refl }
  set_level-Keeps (some level) = record { kept = λ s. refl }

  settings-Ensures :
      (firmware : Bool) (before : Task X H)
      → ((d : H.Device) → is_ok (H.get_fan_curve d) ≡ firmware)
      → (firmware ≡ true → before ≡ none)
      → (config : Gpu X) (table : List H.CommitHandle)
      → Ensures
          (λ s. task X H s ≡ before)
          (set_profile_mode X H config.performance_level config.custom_power_profile_mode_hueristics
              config.power_profile_mode_index
            >> (apply_fans X H F config.fan_control_enabled config.fan_control_settings
                  config.pmfw_options
                >>= λ handles. finish_apply X H config (table ++ handles)))
          (Stands X H (fan_task firmware config.fan_control_enabled config.fan_control_settings))
  settings-Ensures firmware before constant firmware_alone config table =
      let after = fan_task firmware config.fan_control_enabled config.fan_control_settings in
      let still = undisturbed X H in
      keep_on
        (set_profile_mode X H config.performance_level config.custom_power_profile_mode_hueristics
          config.power_profile_mode_index)
        _ (Stands X H after)
        (set_profile_mode-Keeps X H (task X H) still config.performance_level
          config.custom_power_profile_mode_hueristics config.power_profile_mode_index)
        λ _.
          Ensures-bind (λ s. task X H s ≡ before)
            (apply_fans X H F config.fan_control_enabled config.fan_control_settings
              config.pmfw_options)
            (Stands X H after) (λ handles. finish_apply X H config (table ++ handles))
            (Stands X H after)
            (apply_fans-Ensures X H F firmware constant before firmware_alone
              config.fan_control_enabled config.fan_control_settings config.pmfw_options)
            λ handles.
              Keeps-Ensures (task X H) (finish_apply X H config (table ++ handles)) after
                (finish_apply-Keeps X H (task X H) still config (table ++ handles))

  -- When a configuration was applied, a task follows a fan curve exactly if the configuration
  -- controls the fans by a curve and the card's firmware does not follow curves; it is a task with the
  -- configured curve. The card either has such firmware throughout or not, and where it has, no task
  -- runs before.
  pub apply_config-fan_task :
      (is_steam_deck firmware : Bool) (config : Gpu X) (s : AmdGpuController X H)
      → ((d : H.Device) → is_ok (H.get_fan_curve d) ≡ firmware)
      → (firmware ≡ true → s.fan_control_handle ≡ none)
      → (apply_config X H F is_steam_deck config s).0 ≡ ok tt
      → (apply_config X H F is_steam_deck config s).1.fan_control_handle
        ≡ fan_task firmware config.fan_control_enabled config.fan_control_settings
  unfolding apply_config
  apply_config-fan_task is_steam_deck firmware config s constant firmware_alone done =
      let at = Stands X H {A = Unit} s.fan_control_handle in
      let base = base_level X H is_steam_deck in
      let goal =
        Stands X H {A = Unit}
          (fan_task firmware config.fan_control_enabled config.fan_control_settings) in
      (keep_on (apply_power_cap X H config.power_cap) _ goal
          (apply_power_cap-Keeps X H config.power_cap)
          λ _.
            keep_on (logged (call X H H.reset_clocks_table)) _ goal (record { kept = λ s. refl })
              λ _.
                keep_on (logged (call X H (H.set_power_force_performance_level base))) _ goal
                  (record { kept = λ s. refl })
                  λ _.
                    keep_on (apply_clocks X H config) _ goal
                      (apply_clocks-Keeps X H (task X H) (undisturbed X H) config)
                      λ table.
                        keep_on (set_level X H config.performance_level) _ goal
                          (set_level-Keeps config.performance_level)
                          (λ _.
                            settings-Ensures firmware s.fan_control_handle constant firmware_alone
                              config table)).after
        s refl tt done
