-- ===== src/Controllers/Amd/Manual.antt =====
-- When `apply_config` refuses a configuration because it needs the manual performance level.
use yagc.Common.{
  ◌≡◌, refl, ◌≢◌, ◌⊎◌, inl, inr, ℕ, ℤ, Bool, false, Option, none, some, List, [], ◌∷◌, ◌++◌, err,
  Error, arith, Bool-cases, Result-cases, ap,
}
use yagc.Common.Exec.{logged, ◌>>=◌, ◌>>◌}
use yagc.Common.Triples.{Ensures, Ensures-bind, Ensures-any}
use yagc.Crates.{Crates}
use yagc.Config.{Gpu}
use yagc.FanCurve.{Floats}
use yagc.Controllers.Amd.{GpuHandle, AmdGpuController, Action, call, fan_zero_rpm_stop_temperature}
use yagc.Controllers.Amd.PowerCap.{apply_power_cap}
use yagc.Controllers.Amd.Clocks.{apply_clocks}
use yagc.Controllers.Amd.Fans.{set_changed}
use yagc.Controllers.Amd.Apply.{
  set_level, is_manual, require_manual, set_profile_mode, set_zero_rpm, commit_all,
  set_power_states, base_level, finish_apply, apply_fans, apply_config,
}

module _ (X : Crates) (H : GpuHandle X) where
  -- A method that never succeeds.
  abbrev Fails : {A : Type 0} → Action X H A → Type 0
  Fails m = Ensures (λ s. Unit {0}) m (λ a s. ⊥)

  Fails-error :
      {A : Type 0} (m : Action X H A)
      → Fails m
      → (s : AmdGpuController X H) → (e : Error) × ((m s).0 ≡ err e)
  Fails-error m fails s = elim (Result-cases (m s).0) [
    | inl (a, done) ↦ absurd (fails.after s tt a done)
    | inr failed ↦ failed
  ]

  Fails-later :
      {A B : Type 0} (m : Action X H A) (next : A → Action X H B)
      → ((a : A) → Fails (next a))
      → Fails (m >>= next)
  Fails-later m next later =
      Ensures-bind (λ _. Unit) m (λ _ _. Unit) next (λ _ _. ⊥) (Ensures-any (λ _. Unit) m) later

  Fails-first :
      {A B : Type 0} (m : Action X H A) (next : A → Action X H B) → Fails m → Fails (m >>= next)
  Fails-first m next first =
      Ensures-bind (λ _. Unit) m (λ _ _. ⊥) next (λ _ _. ⊥) first
        (λ a. record { after = λ s none b done. absurd none })

  not_manual :
      (level : Option X.PerformanceLevel) → level ≢ some X.manual → is_manual X H level ≡ false
  unfolding is_manual
  not_manual none h = refl
  not_manual (some l) h = elim (Bool-cases (X.level_eq.test l X.manual)) [
    | inl same ↦ absurd (h (ap some ((X.level_eq.test_iff l X.manual).0 same)))
    | inr other ↦ other
  ]

  require_manual-Fails :
      (level : Option X.PerformanceLevel) → level ≢ some X.manual → Fails (require_manual X H level)
  unfolding require_manual
  require_manual-Fails level h =
      rw (not_manual level h) (record { after = λ s _ a done. absurd (ground (arith, done)) })

  set_profile_mode-Fails :
      (level : Option X.PerformanceLevel) (heuristics : List (List (Option ℤ)))
      (mode_index : Option ℕ)
      → level ≢ some X.manual
      → mode_index ≢ none
      → Fails (set_profile_mode X H level heuristics mode_index)
  unfolding set_profile_mode
  set_profile_mode-Fails level heuristics none h used = absurd (used refl)
  set_profile_mode-Fails level heuristics (some mode_index) h used =
      Fails-first (require_manual X H level) _ (require_manual-Fails level h)

  set_power_states-Fails :
      (level : Option X.PerformanceLevel) (states : List (X.PowerLevelKind × List ℕ))
      → level ≢ some X.manual
      → states ≢ []
      → Fails (set_power_states X H level states)
  unfolding set_power_states
  set_power_states-Fails level [] h used = absurd (used refl)
  set_power_states-Fails level (_ ∷ rest) h used =
      Fails-first (require_manual X H level) _ (require_manual-Fails level h)

  finish_apply-Fails :
      (config : Gpu X) (handles : List H.CommitHandle)
      → config.performance_level ≢ some X.manual
      → X.iter config.power_states ≢ []
      → Fails (finish_apply X H config handles)
  unfolding finish_apply
  finish_apply-Fails config handles h used =
      Fails-later (set_zero_rpm X H config.pmfw_options.zero_rpm) _ λ zero_rpm.
        Fails-later
          (set_changed X H fan_zero_rpm_stop_temperature config.pmfw_options.zero_rpm_threshold) _
          λ threshold.
            Fails-later (commit_all X H (handles ++ zero_rpm ++ threshold)) _ λ _.
              set_power_states-Fails config.performance_level (X.iter config.power_states) h used

module _ (X : Crates) (H : GpuHandle X) (F : Floats) where
  settings-Fails :
      (config : Gpu X) (table : List H.CommitHandle)
      → config.performance_level ≢ some X.manual
      → (config.power_profile_mode_index ≢ none) ⊎ (X.iter config.power_states ≢ [])
      → Fails X H (
          set_profile_mode X H config.performance_level config.custom_power_profile_mode_hueristics
            config.power_profile_mode_index
          >> (apply_fans X H F config.fan_control_enabled config.fan_control_settings
                config.pmfw_options
              >>= λ handles. finish_apply X H config (table ++ handles)))
  settings-Fails config table h (inl used) = Fails-first X H _ _ (
      set_profile_mode-Fails X H config.performance_level
        config.custom_power_profile_mode_hueristics config.power_profile_mode_index h used)
  settings-Fails config table h (inr used) =
      Fails-later X H
        (set_profile_mode X H config.performance_level config.custom_power_profile_mode_hueristics
          config.power_profile_mode_index)
        _
        λ _.
          Fails-later X H
            (apply_fans X H F config.fan_control_enabled config.fan_control_settings
              config.pmfw_options)
            _ λ handles. finish_apply-Fails X H config (table ++ handles) h used

  -- A configuration with a power profile mode or with restricted power states is refused unless its
  -- performance level is the manual one, on every device and from every state.
  pub apply_config-needs_manual :
      (is_steam_deck : Bool) (config : Gpu X) (s : AmdGpuController X H)
      → config.performance_level ≢ some X.manual
      → (config.power_profile_mode_index ≢ none) ⊎ (X.iter config.power_states ≢ [])
      → (e : Error) × ((apply_config X H F is_steam_deck config s).0 ≡ err e)
  unfolding apply_config
  apply_config-needs_manual is_steam_deck config s h used =
      let base = base_level X H is_steam_deck in
      Fails-error X H (apply_config X H F is_steam_deck config)
        (Fails-later X H (apply_power_cap X H config.power_cap) _ λ _.
          Fails-later X H (logged (call X H H.reset_clocks_table)) _ λ _.
            Fails-later X H (logged (call X H (H.set_power_force_performance_level base))) _ λ _.
              Fails-later X H (apply_clocks X H config) _ λ table.
                Fails-later X H (set_level X H config.performance_level) _
                  λ _. settings-Fails config table h used)
        s
