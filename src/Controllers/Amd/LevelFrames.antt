-- ===== src/Controllers/Amd/LevelFrames.antt =====
-- What leaves the performance level as it is: the calls on the device, and with them the control of
-- the fans.
use yagc.Common.{
  ◌≡◌, refl, ℕ, ℤ, Bool, true, false, Option, none, some, List, [], ◌++◌, ok, err, if◌then◌else◌,
  is_empty, nat_beq, no_temperature, empty_fan_curve, no_fan_settings,
}
use yagc.Common.Exec.{Exec, pure, raise, gets, modify}
use yagc.Common.Triples.{Keeps, Keeps-bind, Keeps-still, Keeps-if, Keeps-course, Keeps-if_ok}
use yagc.Crates.{Crates}
use yagc.Config.{F64, FanCurveMap, FanControlSettings, FanControlMode, static, curve, PmfwOptions}
use yagc.FanCurve.{Floats, PmfwCurve}
use yagc.Controllers.Amd.{
  GpuHandle, AmdGpuController, call, ask, first_hw_mon, FanInfo, fan_acoustic_limit,
  fan_acoustic_target, fan_target_temperature, fan_minimum_pwm,
}
use yagc.Controllers.Amd.Frames.{IsUndisturbed, Keeps-ask, set_changed-Keeps}
use yagc.Controllers.Amd.FanFrames.{
  await_task-Keeps, reset_fan_mode-Keeps, first_hw_mon-Keeps, set_static_curve-Keeps,
  set_static_pwm-Keeps, set_curve-Keeps,
}
use yagc.Controllers.Amd.Fans.{
  reset_fan_mode, await_task, stop_fan_control, set_static_fan_control,
  start_curve_fan_control_task, set_changed, start_curve_fan_control, control_fans,
}
use yagc.Controllers.Amd.Apply.{set_pmfw_options, apply_fans}

-- What the device does about its performance level: setting it to a level that the device takes
-- makes that the level, and the other calls that come after leave it.
pub record KeepsLevel (X : Crates) (H : GpuHandle X) : Type 0 where
  pub level : H.Device → X.PerformanceLevel
  pub sets :
      (l : X.PerformanceLevel) (d : H.Device)
      → (H.set_power_force_performance_level l d).0 ≡ ok tt
      → level (H.set_power_force_performance_level l d).1 ≡ l
  pub commit : (c : H.CommitHandle) → Keeps level (H.commit c)
  pub method : (m : H.FanControlMethod) → Keeps level (H.set_fan_control_method m)
  pub pwm : (n : ℕ) → Keeps level (H.set_fan_pwm n)
  pub join_task : (task : FanCurveMap × FanControlSettings) → Keeps level (H.join_task task)
  pub table : (t : H.Table) → Keeps level (H.set_clocks_table t)
  pub mode : (n : ℕ) → Keeps level (H.set_active_power_profile_mode n)
  pub heuristics :
      (l : List (List (Option ℤ))) → Keeps level (H.set_custom_power_profile_mode_heuristics l)
  pub power_levels :
      (k : X.PowerLevelKind) (l : List ℕ) → Keeps level (H.set_enabled_power_levels k l)
  pub fan_curve : (c : PmfwCurve) → Keeps level (H.set_fan_curve c)
  pub reset_fan_curve : Keeps level H.reset_fan_curve
  pub fan_info : (i : FanInfo) (n : ℕ) → Keeps level (H.set_fan_info i n)
  pub zero_rpm : (b : Bool) → Keeps level (H.set_fan_zero_rpm_enable b)

module _ (X : Crates) (H : GpuHandle X) (L : KeepsLevel X H) where
  abbrev pub view : AmdGpuController X H → X.PerformanceLevel
  view s = L.level s.device

  Keeps-call : {A : Type 0} (m : Exec H.Device A) → Keeps L.level m → Keeps view (call X H m)
  Keeps-call m keeps = record { kept = λ s. keeps.kept s.device }

  pub undisturbed : IsUndisturbed X H view
  undisturbed = record {
    commit = λ c. Keeps-call (H.commit c) (L.commit c);
    method = λ m. Keeps-call (H.set_fan_control_method m) (L.method m);
    pwm = λ n. Keeps-call (H.set_fan_pwm n) (L.pwm n);
    join_task = λ t. Keeps-call (H.join_task t) (L.join_task t);
    table = λ t. Keeps-call (H.set_clocks_table t) (L.table t);
    mode = λ n. Keeps-call (H.set_active_power_profile_mode n) (L.mode n);
    heuristics = λ l. Keeps-call (H.set_custom_power_profile_mode_heuristics l) (L.heuristics l);
    power_levels = λ k l. Keeps-call (H.set_enabled_power_levels k l) (L.power_levels k l);
    fan_curve = λ c. Keeps-call (H.set_fan_curve c) (L.fan_curve c);
    reset_fan_curve = Keeps-call H.reset_fan_curve L.reset_fan_curve;
    fan_info = λ i n. Keeps-call (H.set_fan_info i n) (L.fan_info i n);
    zero_rpm = λ b. Keeps-call (H.set_fan_zero_rpm_enable b) (L.zero_rpm b);
  }

  Keeps-task :
      (task : Option (FanCurveMap × FanControlSettings))
      → Keeps view (modify (λ s. record s { fan_control_handle = task }))
  Keeps-task task = record { kept = λ s. refl }

  stop_fan_control-Keeps : (reset_mode : Bool) → Keeps view (stop_fan_control X H reset_mode)
  unfolding stop_fan_control
  stop_fan_control-Keeps reset_mode =
      Keeps-bind view (gets (λ s. s.fan_control_handle)) _
        (Keeps-still view (λ s. ok s.fan_control_handle))
        λ running.
          Keeps-bind view (modify (λ s. record s { fan_control_handle = none })) _ (Keeps-task none)
            λ _.
              Keeps-bind view (await_task X H running) _
                (await_task-Keeps X H view undisturbed running)
                λ _.
                  Keeps-if view reset_mode (reset_fan_mode X H) (pure tt)
                    (reset_fan_mode-Keeps X H view undisturbed) (Keeps-still view (λ s. ok tt))

  set_static_fan_control-Keeps :
      (static_speed : F64) → Keeps view (set_static_fan_control X H static_speed)
  unfolding set_static_fan_control
  set_static_fan_control-Keeps static_speed =
      Keeps-bind view (stop_fan_control X H false) _ (stop_fan_control-Keeps false) λ _.
        Keeps-course view _ λ s.
          Keeps-if_ok view (H.get_fan_curve s.device) _ _
            (set_static_curve-Keeps X H view undisturbed static_speed)
            (set_static_pwm-Keeps X H view undisturbed static_speed)

  start_curve_fan_control_task-Keeps :
      (points : FanCurveMap) (settings : FanControlSettings)
      → Keeps view (start_curve_fan_control_task X H points settings)
  unfolding start_curve_fan_control_task
  start_curve_fan_control_task-Keeps points settings =
      Keeps-bind view (stop_fan_control X H false) _ (stop_fan_control-Keeps false) λ _.
        Keeps-bind view (first_hw_mon X H) _ (first_hw_mon-Keeps X H view undisturbed) λ _.
          Keeps-bind view
            (ask X H (λ d. if nat_beq (H.count_temps d) 0 then err no_temperature else ok tt)) _
            (Keeps-ask X H view
              (λ d. if nat_beq (H.count_temps d) 0 then err no_temperature else ok tt))
            λ _.
              Keeps-bind view (call X H (H.set_fan_control_method H.manual_method)) _
                (undisturbed.method H.manual_method) (λ _. Keeps-task (some (points, settings)))

  module _ (F : Floats) where
    start_curve_fan_control-Keeps :
        (points : FanCurveMap) (settings : FanControlSettings)
        → Keeps view (start_curve_fan_control X H F points settings)
    unfolding start_curve_fan_control
    start_curve_fan_control-Keeps points settings = Keeps-course view _ λ s.
        Keeps-if_ok view (H.get_fan_curve s.device) _ _
          (set_curve-Keeps X H view undisturbed F points)
          (Keeps-bind view (start_curve_fan_control_task X H points settings) (λ _. pure [])
            (start_curve_fan_control_task-Keeps points settings)
            (λ _. Keeps-still view (λ s. ok [])))

    control_fans-Keeps :
        (mode : FanControlMode) (settings : FanControlSettings)
        → Keeps view (control_fans X H F mode settings)
    unfolding control_fans
    control_fans-Keeps static settings = set_static_fan_control-Keeps settings.static_speed
    control_fans-Keeps curve settings =
        Keeps-if view (is_empty settings.curve_points) (raise empty_fan_curve)
          (start_curve_fan_control X H F settings.curve_points settings)
          (Keeps-still view (λ s. err empty_fan_curve))
          (start_curve_fan_control-Keeps settings.curve_points settings)

    set_pmfw_options-Keeps : (pmfw : PmfwOptions) → Keeps view (set_pmfw_options X H pmfw)
    unfolding set_pmfw_options
    set_pmfw_options-Keeps pmfw =
        Keeps-bind view (set_changed X H fan_acoustic_limit pmfw.acoustic_limit) _
          (set_changed-Keeps X H view undisturbed fan_acoustic_limit pmfw.acoustic_limit)
          λ limit.
            Keeps-bind view (set_changed X H fan_acoustic_target pmfw.acoustic_target) _
              (set_changed-Keeps X H view undisturbed fan_acoustic_target pmfw.acoustic_target)
              λ target.
                Keeps-bind view (set_changed X H fan_target_temperature pmfw.target_temperature) _
                  (set_changed-Keeps X H view undisturbed fan_target_temperature
                    pmfw.target_temperature)
                  λ temperature.
                    Keeps-bind view (set_changed X H fan_minimum_pwm pmfw.minimum_pwm) _
                      (set_changed-Keeps X H view undisturbed fan_minimum_pwm pmfw.minimum_pwm)
                      λ minimum.
                        Keeps-bind view (stop_fan_control X H true) _ (stop_fan_control-Keeps true)
                          (λ _.
                            Keeps-still view (λ s. ok (limit ++ target ++ temperature ++ minimum)))

    pub apply_fans-Keeps :
        (enabled : Bool) (settings : Option FanControlSettings) (pmfw : PmfwOptions)
        → Keeps view (apply_fans X H F enabled settings pmfw)
    unfolding apply_fans
    apply_fans-Keeps false settings pmfw = set_pmfw_options-Keeps pmfw
    apply_fans-Keeps true none pmfw = Keeps-still view (λ s. err no_fan_settings)
    apply_fans-Keeps true (some settings) pmfw = control_fans-Keeps settings.mode settings
