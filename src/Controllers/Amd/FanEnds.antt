-- ===== src/Controllers/Amd/FanEnds.antt =====
-- The task that follows a fan curve after each way of controlling the fans.
use yagc.Common.{
  ◌≡◌, refl, sym, ◌∙◌, inl, inr, Bool, true, false, Option, none, some, List, [], Result, ok, err,
  if◌then◌else◌, is_empty, nat_beq, arith, no_temperature, Bool-cases, Result-cases,
}
use yagc.Common.Exec.{pure, gets, modify}
use yagc.Common.Triples.{
  Keeps-bind, Keeps-still, Keeps-if, Keeps-course, Keeps-if_ok, Keeps-Ensures, Ensures,
  Ensures-bind, Ensures-any,
}
use yagc.Crates.{Crates}
use yagc.Config.{F64, FanCurveMap, FanControlSettings, FanControlMode, static, curve, PmfwOptions}
use yagc.FanCurve.{Floats}
use yagc.Controllers.Amd.{
  GpuHandle, AmdGpuController, call, ask, first_hw_mon, fan_acoustic_limit, fan_acoustic_target,
  fan_target_temperature, fan_minimum_pwm,
}
use yagc.Controllers.Amd.Fans.{
  reset_fan_mode, await_task, stop_fan_control, set_static_fan_control,
  start_curve_fan_control_task, set_changed, start_curve_fan_control, control_fans,
}
use yagc.Controllers.Amd.Apply.{set_pmfw_options, apply_fans}
use yagc.Controllers.Amd.Frames.{IsUndisturbed}
use yagc.Controllers.Amd.FanFrames.{
  reset_fan_mode-Keeps, await_task-Keeps, set_static_curve-Keeps, set_static_pwm-Keeps,
  set_curve-Keeps,
}

abbrev pub is_ok : {A : Type 0} → Result A → Bool
is_ok (ok a) = true
is_ok (err e) = false

-- The task that a configuration asks for, on a card whose firmware follows curves or does not.
unfoldable pub mode_task :
    Bool → FanControlMode → FanControlSettings → Option (FanCurveMap × FanControlSettings)
mode_task firmware static settings = none
mode_task true curve settings = none
mode_task false curve settings = some (settings.curve_points, settings)

unfoldable pub fan_task :
    Bool → Bool → Option FanControlSettings → Option (FanCurveMap × FanControlSettings)
unfolding mode_task
fan_task firmware false settings = none
fan_task firmware true none = none
fan_task firmware true (some settings) = mode_task firmware settings.mode settings

module _ (X : Crates) (H : GpuHandle X) where
  abbrev pub task : AmdGpuController X H → Option (FanCurveMap × FanControlSettings)
  task s = s.fan_control_handle

  abbrev pub Task : Type 0
  Task = Option (FanCurveMap × FanControlSettings)

  pub undisturbed : IsUndisturbed X H task
  undisturbed = record {
    commit = λ c. record { kept = λ s. refl };
    method = λ m. record { kept = λ s. refl };
    pwm = λ n. record { kept = λ s. refl };
    join_task = λ t. record { kept = λ s. refl };
    table = λ t. record { kept = λ s. refl };
    mode = λ n. record { kept = λ s. refl };
    heuristics = λ l. record { kept = λ s. refl };
    power_levels = λ k l. record { kept = λ s. refl };
    fan_curve = λ c. record { kept = λ s. refl };
    reset_fan_curve = record { kept = λ s. refl };
    fan_info = λ i n. record { kept = λ s. refl };
    zero_rpm = λ b. record { kept = λ s. refl };
  }

  abbrev pub Stands : {A : Type 0} → Task → A → AmdGpuController X H → Type 0
  Stands t a s = task s ≡ t

  stop_fan_control-Ensures :
      (reset_mode : Bool) (P : AmdGpuController X H → Type 0)
      → Ensures P (stop_fan_control X H reset_mode) (Stands none)
  unfolding stop_fan_control
  stop_fan_control-Ensures reset_mode P =
      Ensures-bind P (gets task) (λ _ _. Unit) _ (Stands none) (Ensures-any P (gets task))
        λ running.
          Ensures-bind _ (modify (λ s. record s { fan_control_handle = none })) (Stands none) _
            (Stands none) (record { after = λ s h a done. refl })
            λ _. Keeps-Ensures task _ none (
              Keeps-bind task (await_task X H running) _
                (await_task-Keeps X H task undisturbed running)
                λ _.
                  Keeps-if task reset_mode (reset_fan_mode X H) (pure tt)
                    (reset_fan_mode-Keeps X H task undisturbed) (Keeps-still task (λ s. ok tt)))

  set_static_fan_control-Ensures :
      (static_speed : F64) (P : AmdGpuController X H → Type 0)
      → Ensures P (set_static_fan_control X H static_speed) (Stands none)
  unfolding set_static_fan_control
  set_static_fan_control-Ensures static_speed P =
      Ensures-bind P (stop_fan_control X H false) (Stands none) _ (Stands none)
        (stop_fan_control-Ensures false P)
        λ _. Keeps-Ensures task _ none (
          Keeps-course task _ λ s.
            Keeps-if_ok task (H.get_fan_curve s.device) _ _
              (set_static_curve-Keeps X H task undisturbed static_speed)
              (set_static_pwm-Keeps X H task undisturbed static_speed))

  start_curve_fan_control_task-Ensures :
      (points : FanCurveMap) (settings : FanControlSettings) (P : AmdGpuController X H → Type 0)
      → Ensures P
          (start_curve_fan_control_task X H points settings)
          (Stands (some (points, settings)))
  unfolding start_curve_fan_control_task
  start_curve_fan_control_task-Ensures points settings P =
      let temps : H.Device → Result Unit =
        λ d. if nat_beq (H.count_temps d) 0 then err no_temperature else ok tt in
      let stands = Stands {A = Unit} (some (points, settings)) in
      Ensures-bind P (stop_fan_control X H false) (λ _ _. Unit) _ stands
        (Ensures-any P (stop_fan_control X H false))
        λ _.
          Ensures-bind _ (first_hw_mon X H) (λ _ _. Unit) _ stands
            (Ensures-any _ (first_hw_mon X H))
            λ _.
              Ensures-bind _ (ask X H temps) (λ _ _. Unit) _ stands (Ensures-any _ (ask X H temps))
                λ _.
                  Ensures-bind _ (call X H (H.set_fan_control_method H.manual_method)) (λ _ _. Unit)
                    (λ _. modify (λ s. record s { fan_control_handle = some (points, settings) }))
                    stands (Ensures-any _ (call X H (H.set_fan_control_method H.manual_method)))
                    (λ _. record { after = λ s h a done. refl })

  set_pmfw_options-Ensures :
      (pmfw : PmfwOptions) (P : AmdGpuController X H → Type 0)
      → Ensures P (set_pmfw_options X H pmfw) (Stands none)
  unfolding set_pmfw_options
  set_pmfw_options-Ensures pmfw P =
      let stands = Stands {A = List H.CommitHandle} none in
      let limit = set_changed X H fan_acoustic_limit pmfw.acoustic_limit in
      let target = set_changed X H fan_acoustic_target pmfw.acoustic_target in
      let temperature = set_changed X H fan_target_temperature pmfw.target_temperature in
      let minimum = set_changed X H fan_minimum_pwm pmfw.minimum_pwm in
      Ensures-bind P limit (λ _ _. Unit) _ stands (Ensures-any P limit)
        λ a.
          Ensures-bind _ target (λ _ _. Unit) _ stands (Ensures-any _ target)
            λ b.
              Ensures-bind _ temperature (λ _ _. Unit) _ stands (Ensures-any _ temperature)
                λ c.
                  Ensures-bind _ minimum (λ _ _. Unit) _ stands (Ensures-any _ minimum)
                    λ d.
                      Ensures-bind _ (stop_fan_control X H true) (Stands none) _ stands
                        (stop_fan_control-Ensures true _) (λ _. record { after = λ s h x done. h })

  module _ (F : Floats) (firmware : Bool)
      (constant : (d : H.Device) → is_ok (H.get_fan_curve d) ≡ firmware) (before : Task)
      (firmware_alone : firmware ≡ true → before ≡ none) where
    start_curve_fan_control-Ensures :
        (settings : FanControlSettings)
        → Ensures
            (λ s. task s ≡ before)
            (start_curve_fan_control X H F settings.curve_points settings)
            (Stands (mode_task firmware curve settings))
    unfolding start_curve_fan_control mode_task
    start_curve_fan_control-Ensures settings = record {
      after = λ s h a done. elim (Result-cases (H.get_fan_curve s.device)) [
        | inl (current, there) ↦
            let with_firmware : firmware ≡ true = sym (constant s.device) ∙ rw (there) refl in
            rw (there, with_firmware)
              ((set_curve-Keeps X H task undisturbed F settings.curve_points current).kept s
                ∙ h
                ∙ firmware_alone with_firmware)
        | inr (e, missing) ↦
            let without_firmware : firmware ≡ false = sym (constant s.device) ∙ rw (missing) refl in
            rw (missing, without_firmware)
              ((Ensures-bind (λ s. task s ≡ before)
                  (start_curve_fan_control_task X H settings.curve_points settings)
                  (Stands (some (settings.curve_points, settings))) (λ _. pure [])
                  (Stands (some (settings.curve_points, settings)))
                  (start_curve_fan_control_task-Ensures settings.curve_points settings
                    (λ s. task s ≡ before))
                  (λ _. record { after = λ s h a done. h })).after
                s h a (rw (missing) at done))
      ];
    }

    control_fans-Ensures :
        (mode : FanControlMode) (settings : FanControlSettings)
        → Ensures
            (λ s. task s ≡ before)
            (control_fans X H F mode settings)
            (Stands (mode_task firmware mode settings))
    unfolding control_fans mode_task
    control_fans-Ensures static settings =
        set_static_fan_control-Ensures settings.static_speed (λ s. task s ≡ before)
    control_fans-Ensures curve settings = record {
      after = λ s h a done. elim (Bool-cases (is_empty settings.curve_points)) [
        | inl empty ↦ absurd (ground (arith, empty, done))
        | inr points ↦
            rw (points)
              ((start_curve_fan_control-Ensures settings).after s h a (rw (points) at done))
      ];
    }

    pub apply_fans-Ensures :
        (enabled : Bool) (settings : Option FanControlSettings) (pmfw : PmfwOptions)
        → Ensures
            (λ s. task s ≡ before)
            (apply_fans X H F enabled settings pmfw)
            (Stands (fan_task firmware enabled settings))
    unfolding apply_fans fan_task
    apply_fans-Ensures false settings pmfw = set_pmfw_options-Ensures pmfw (λ s. task s ≡ before)
    apply_fans-Ensures true none pmfw = record {
      after = λ s h a done. absurd (ground (arith, done));
    }
    apply_fans-Ensures true (some settings) pmfw = control_fans-Ensures settings.mode settings
