-- ===== src/Controllers/Amd/Frames.antt =====
-- What the parts of `apply_config` leave as it is, if the calls on the device do.
use yagc.Common.{
  manual_level_required, ℕ, ℤ, Bool, true, false, Option, none, some, List, [], ◌∷◌, ◌++◌, Result,
  ok, err, if◌then◌else◌, is_empty, not, nat_beq,
}
use yagc.Common.Exec.{Exec, pure, raise, ◌>>=◌}
use yagc.Common.Triples.{Keeps, Keeps-bind, Keeps-still, Keeps-if}
use yagc.Crates.{Crates}
use yagc.Config.{Gpu, FanCurveMap, FanControlSettings}
use yagc.Config.Clocks.{is_core_clocks_used}
use yagc.FanCurve.{PmfwCurve}
use yagc.Controllers.Amd.{
  GpuHandle, AmdGpuController, call, ask, FanInfo, fan_zero_rpm_stop_temperature,
}
use yagc.Controllers.Amd.Clocks.{apply_to_table, write_table, apply_clocks}
use yagc.Controllers.Amd.Fans.{set_changed}
use yagc.Controllers.Amd.Apply.{
  is_manual, require_manual, set_profile_mode, set_zero_rpm, commit_all, set_power_states,
  finish_apply,
}

module _ (X : Crates) (H : GpuHandle X) {V : Type 0} (view : AmdGpuController X H → V) where
  -- The calls that leave a part of the state as it is: all but those about performance levels, the
  -- power limit and the reset of the clocks.
  pub record IsUndisturbed : Type 0 where
    pub commit : (c : H.CommitHandle) → Keeps view (call X H (H.commit c))
    pub method : (m : H.FanControlMethod) → Keeps view (call X H (H.set_fan_control_method m))
    pub pwm : (n : ℕ) → Keeps view (call X H (H.set_fan_pwm n))
    pub join_task :
        (task : FanCurveMap × FanControlSettings) → Keeps view (call X H (H.join_task task))
    pub table : (t : H.Table) → Keeps view (call X H (H.set_clocks_table t))
    pub mode : (n : ℕ) → Keeps view (call X H (H.set_active_power_profile_mode n))
    pub heuristics :
        (l : List (List (Option ℤ)))
        → Keeps view (call X H (H.set_custom_power_profile_mode_heuristics l))
    pub power_levels :
        (k : X.PowerLevelKind) (l : List ℕ) → Keeps view (call X H (H.set_enabled_power_levels k l))
    pub fan_curve : (c : PmfwCurve) → Keeps view (call X H (H.set_fan_curve c))
    pub reset_fan_curve : Keeps view (call X H H.reset_fan_curve)
    pub fan_info : (i : FanInfo) (n : ℕ) → Keeps view (call X H (H.set_fan_info i n))
    pub zero_rpm : (b : Bool) → Keeps view (call X H (H.set_fan_zero_rpm_enable b))

  pub Keeps-ask : {A : Type 0} (f : H.Device → Result A) → Keeps view (ask X H f)
  Keeps-ask f = Keeps-still view (λ s. f s.device)

  pub one_handle :
      (m : Exec H.Device H.CommitHandle)
      → Keeps view (call X H m)
      → Keeps view (call X H m >>= λ handle. pure (handle ∷ []))
  one_handle m keeps =
      Keeps-bind view (call X H m) (λ handle. pure (handle ∷ [])) keeps
        (λ handle. Keeps-still view (λ s. ok (handle ∷ [])))

  -- A value that is read, and written if it differs.
  unless_current :
      (test : Bool) (m : Exec H.Device H.CommitHandle)
      → Keeps view (call X H m)
      → Keeps view (if test then pure [] else call X H m >>= λ handle. pure (handle ∷ []))
  unless_current true m keeps = Keeps-still view (λ s. ok [])
  unless_current false m keeps = one_handle m keeps

  module _ (U : IsUndisturbed) where
    pub apply_clocks-Keeps : (config : Gpu X) → Keeps view (apply_clocks X H config)
    unfolding apply_clocks
    apply_clocks-Keeps config =
        let clocks = config.clocks_configuration in
        Keeps-if view (is_core_clocks_used X config) (write_table X H clocks) (pure [])
          (Keeps-bind view (ask X H H.get_clocks_table) _ (Keeps-ask H.get_clocks_table) λ original.
            let (result, table) = apply_to_table X H clocks original in
            Keeps-bind view (ask X H (λ d. result)) _ (Keeps-ask (λ d. result)) λ _.
              Keeps-bind view (ask X H (λ d. H.get_commands original table)) _
                (Keeps-ask (λ d. H.get_commands original table))
                (λ _. one_handle (H.set_clocks_table table) (U.table table)))
          (Keeps-still view (λ s. ok []))

    pub set_changed-Keeps :
        (field : FanInfo) (value : Option ℕ) → Keeps view (set_changed X H field value)
    unfolding set_changed
    set_changed-Keeps field none = Keeps-still view (λ s. ok [])
    set_changed-Keeps field (some value) =
        Keeps-bind view (ask X H (H.get_fan_info field)) _ (Keeps-ask (H.get_fan_info field))
          λ current.
            unless_current (nat_beq current value) (H.set_fan_info field value)
              (U.fan_info field value)

    set_zero_rpm-Keeps : (value : Option Bool) → Keeps view (set_zero_rpm X H value)
    unfolding set_zero_rpm
    set_zero_rpm-Keeps none = Keeps-still view (λ s. ok [])
    set_zero_rpm-Keeps (some value) =
        Keeps-bind view (ask X H H.get_fan_zero_rpm_enable) _ (Keeps-ask H.get_fan_zero_rpm_enable)
          λ current.
            unless_current (if current then value else not value) (H.set_fan_zero_rpm_enable value)
              (U.zero_rpm value)

    commit_all-Keeps : (handles : List H.CommitHandle) → Keeps view (commit_all X H handles)
    unfolding commit_all
    commit_all-Keeps [] = Keeps-still view (λ s. ok tt)
    commit_all-Keeps (handle ∷ handles) =
        Keeps-bind view (call X H (H.commit handle)) _ (U.commit handle)
          (λ _. commit_all-Keeps handles)

    require_manual-Keeps :
        (level : Option X.PerformanceLevel) → Keeps view (require_manual X H level)
    unfolding require_manual
    require_manual-Keeps level =
        Keeps-if view (is_manual X H level) (pure tt) (raise manual_level_required)
          (Keeps-still view (λ s. ok tt)) (Keeps-still view (λ s. err manual_level_required))

    set_power_states-Keeps :
        (level : Option X.PerformanceLevel) (states : List (X.PowerLevelKind × List ℕ))
        → Keeps view (set_power_states X H level states)
    unfolding set_power_states
    set_power_states-Keeps level [] = Keeps-still view (λ s. ok tt)
    set_power_states-Keeps level ((kind, states) ∷ rest) =
        Keeps-bind view (require_manual X H level) _ (require_manual-Keeps level) λ _.
          Keeps-bind view (call X H (H.set_enabled_power_levels kind states)) _
            (U.power_levels kind states) (λ _. set_power_states-Keeps level rest)

    pub set_profile_mode-Keeps :
        (level : Option X.PerformanceLevel) (heuristics : List (List (Option ℤ)))
        (mode_index : Option ℕ)
        → Keeps view (set_profile_mode X H level heuristics mode_index)
    unfolding set_profile_mode
    set_profile_mode-Keeps level heuristics none = Keeps-still view (λ s. ok tt)
    set_profile_mode-Keeps level heuristics (some mode_index) =
        Keeps-bind view (require_manual X H level) _ (require_manual-Keeps level)
          λ _. Keeps-if view (is_empty heuristics) _ _ (U.mode mode_index) (U.heuristics heuristics)

    pub finish_apply-Keeps :
        (config : Gpu X) (handles : List H.CommitHandle)
        → Keeps view (finish_apply X H config handles)
    unfolding finish_apply
    finish_apply-Keeps config handles =
        let pmfw = config.pmfw_options in
        Keeps-bind view (set_zero_rpm X H pmfw.zero_rpm) _ (set_zero_rpm-Keeps pmfw.zero_rpm)
          λ zero_rpm.
            Keeps-bind view (set_changed X H fan_zero_rpm_stop_temperature pmfw.zero_rpm_threshold)
              _ (set_changed-Keeps fan_zero_rpm_stop_temperature pmfw.zero_rpm_threshold)
              λ threshold.
                Keeps-bind view (commit_all X H (handles ++ zero_rpm ++ threshold)) _
                  (commit_all-Keeps (handles ++ zero_rpm ++ threshold))
                  (λ _.
                    set_power_states-Keeps config.performance_level (X.iter config.power_states))
