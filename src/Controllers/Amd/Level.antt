-- ===== src/Controllers/Amd/Level.antt =====
-- The performance level after a configuration was applied, and when the manual level is required.
use yagc.Common.{◌≡◌, Bool, Option, none, some, List, ◌++◌, ok, unwrap_or}
use yagc.Common.Exec.{logged, ◌>>=◌, ◌>>◌}
use yagc.Common.Triples.{Keeps, Keeps-bind, Keeps-Ensures, Ensures, Ensures-bind, Ensures-any}
use yagc.Crates.{Crates}
use yagc.Config.{Gpu}
use yagc.FanCurve.{Floats}
use yagc.Controllers.Amd.{GpuHandle, AmdGpuController, call}
use yagc.Controllers.Amd.Frames.{apply_clocks-Keeps, finish_apply-Keeps, set_profile_mode-Keeps}
use yagc.Controllers.Amd.PowerCap.{apply_power_cap}
use yagc.Controllers.Amd.Clocks.{apply_clocks}
use yagc.Controllers.Amd.Apply.{
  set_level, set_profile_mode, base_level, finish_apply, apply_fans, apply_config,
}
use yagc.Controllers.Amd.LevelFrames.{KeepsLevel, view, undisturbed, apply_fans-Keeps}

module _ (X : Crates) (H : GpuHandle X) (L : KeepsLevel X H) where
  set_level-Ensures :
      (wanted : Option X.PerformanceLevel) (base : X.PerformanceLevel)
      → Ensures
          (λ s. view X H L s ≡ base)
          (set_level X H wanted)
          (λ _ s. view X H L s ≡ unwrap_or wanted base)
  unfolding set_level
  set_level-Ensures none base = record { after = λ s h a done. h }
  set_level-Ensures (some level) base = record { after = λ s h a done. L.sets level s.device done }

  reset_level-Ensures :
      (base : X.PerformanceLevel)
      → ((d : H.Device) → (H.set_power_force_performance_level base d).0 ≡ ok tt)
      → Ensures
          (λ s. Unit {0})
          (logged (call X H (H.set_power_force_performance_level base)))
          (λ _ s. view X H L s ≡ base)
  reset_level-Ensures base accepts = record {
    after = λ s h a done. L.sets base s.device (accepts s.device);
  }

  module _ (F : Floats) where
    -- What comes after the level is set.
    after_level-Keeps :
        (config : Gpu X) (table : List H.CommitHandle)
        → Keeps (view X H L) (
            set_profile_mode X H config.performance_level
              config.custom_power_profile_mode_hueristics config.power_profile_mode_index
            >> (apply_fans X H F config.fan_control_enabled config.fan_control_settings
                  config.pmfw_options
                >>= λ handles. finish_apply X H config (table ++ handles)))
    after_level-Keeps config table =
        let still = undisturbed X H L in
        let level = config.performance_level in
        let heuristics = config.custom_power_profile_mode_hueristics in
        Keeps-bind (view X H L)
          (set_profile_mode X H level heuristics config.power_profile_mode_index) _
          (set_profile_mode-Keeps X H (view X H L) still level heuristics
            config.power_profile_mode_index)
          λ _.
            Keeps-bind (view X H L)
              (apply_fans X H F config.fan_control_enabled config.fan_control_settings
                config.pmfw_options)
              _
              (apply_fans-Keeps X H L F config.fan_control_enabled config.fan_control_settings
                config.pmfw_options)
              (λ handles. finish_apply-Keeps X H (view X H L) still config (table ++ handles))

    -- When a configuration was applied, the performance level is the configured one, and without one
    -- it is the level that is reset to: `manual` on a Steam Deck and `auto` elsewhere. The device
    -- accepts that level.
    pub apply_config-level :
        (is_steam_deck : Bool) (config : Gpu X) (s : AmdGpuController X H)
        → ((d : H.Device)
            → (H.set_power_force_performance_level (base_level X H is_steam_deck) d).0 ≡ ok tt)
        → (apply_config X H F is_steam_deck config s).0 ≡ ok tt
        → L.level (apply_config X H F is_steam_deck config s).1.device
          ≡ unwrap_or config.performance_level (base_level X H is_steam_deck)
    unfolding apply_config
    apply_config-level is_steam_deck config s accepts done =
        let base = base_level X H is_steam_deck in
        let level = unwrap_or config.performance_level base in
        let profile_mode =
          set_profile_mode X H config.performance_level config.custom_power_profile_mode_hueristics
            config.power_profile_mode_index in
        let fans =
          apply_fans X H F config.fan_control_enabled config.fan_control_settings
            config.pmfw_options in
        (Ensures-bind (λ _. Unit) (apply_power_cap X H config.power_cap) (λ _ _. Unit) _
            (λ _ s. view X H L s ≡ level)
            (Ensures-any (λ _. Unit) (apply_power_cap X H config.power_cap))
            λ _.
              Ensures-bind _ (logged (call X H H.reset_clocks_table)) (λ _ _. Unit) _ _
                (Ensures-any (λ _. Unit) (logged (call X H H.reset_clocks_table)))
                λ _.
                  Ensures-bind _ (logged (call X H (H.set_power_force_performance_level base)))
                    (λ _ s. view X H L s ≡ base) _ _ (reset_level-Ensures base accepts)
                    λ _.
                      Ensures-bind _ (apply_clocks X H config) (λ _ s. view X H L s ≡ base) _ _
                        (Keeps-Ensures (view X H L) (apply_clocks X H config) base
                          (apply_clocks-Keeps X H (view X H L) (undisturbed X H L) config))
                        λ table.
                          Ensures-bind _ (set_level X H config.performance_level)
                            (λ _ s. view X H L s ≡ level) _ _
                            (set_level-Ensures config.performance_level base)
                            λ _.
                              Keeps-Ensures (view X H L)
                                (profile_mode
                                  >> (fans >>= λ handles.
                                      finish_apply X H config (table ++ handles)))
                                level (after_level-Keeps config table)).after
          s tt tt done
