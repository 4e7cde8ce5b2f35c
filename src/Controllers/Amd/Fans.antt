-- ===== src/Controllers/Amd/Fans.antt =====
-- Fan control in amd.rs: a static speed, a curve in the firmware or in a task, and the end of both.
use yagc.Common.{
  ℕ, zero, suc, ◌-◌, Bool, false, Option, none, some, List, [], ◌∷◌, Result, ok, err, if◌then◌else◌,
  nat_beq, ltb, length, is_empty, curve_not_modifiable, no_temperature, empty_fan_curve,
}
use yagc.Common.Exec.{pure, raise, gets, modify, logged, with_state, if_ok, ◌>>=◌, ◌>>◌}
use yagc.Crates.{Crates}
use yagc.Config.{F64, FanCurveMap, FanControlSettings, FanControlMode, static, curve}
use yagc.FanCurve.{Floats, PmfwCurve, PmfwRanges, into_pmfw_curve}
use yagc.Controllers.Amd.{
  GpuHandle, Action, call, ask, first_hw_mon, FanInfo, fan_acoustic_limit, fan_acoustic_target,
  fan_target_temperature, fan_minimum_pwm,
}

-- A point that is pushed so many times.
unfoldable pub copies : {A : Type 0} → ℕ → A → List A
copies zero a = []
copies (suc n) a = a ∷ copies n a

module _ (X : Crates) (H : GpuHandle X) where
  unfoldable pub reset_curve : Action X H (Unit {0})
  reset_curve = with_state λ s.
      if_ok (H.get_fan_curve s.device) (λ current. logged (call X H H.reset_fan_curve)) (pure tt)

  unfoldable pub reset_method : Result H.FanControlMethod → Action X H (Unit {0})
  reset_method (err e) = pure tt
  reset_method (ok current) =
      if H.is_auto current then pure tt else call X H (H.set_fan_control_method H.auto_method)

  unfoldable pub reset_fan_mode : Action X H (Unit {0})
  unfolding reset_curve reset_method
  reset_fan_mode = do
    reset_curve
    with_state
        λ s. if H.has_monitor then reset_method (H.get_fan_control_method s.device) else pure tt

  unfoldable pub await_task : Option (FanCurveMap × FanControlSettings) → Action X H (Unit {0})
  await_task none = pure tt
  await_task (some task) = call X H (H.join_task task)

  unfoldable pub stop_fan_control : Bool → Action X H (Unit {0})
  unfolding await_task reset_fan_mode
  stop_fan_control reset_mode = do
    task ← gets (λ s. s.fan_control_handle)
    modify (λ s. record s { fan_control_handle = none })
    await_task task
    if reset_mode then reset_fan_mode else pure tt

  unfoldable pub static_curve : PmfwRanges → ℕ → F64 → PmfwCurve
  unfolding copies
  static_curve ranges count static_speed =
      let custom_pwm = H.scale ranges.speed_end static_speed in
      let static_pwm =
        if ltb ranges.speed_start custom_pwm then custom_pwm else ranges.speed_start in
      record {
        points =
            (ranges.temperature_start, static_pwm)
            ∷ copies (count - 1) (ranges.temperature_end, static_pwm);
        allowed_ranges = some ranges;
      }

  unfoldable pub set_static_curve : F64 → PmfwCurve → Action X H (List H.CommitHandle)
  unfolding static_curve
  set_static_curve static_speed current = elim current.allowed_ranges [
    | none ↦ raise curve_not_modifiable
    | some ranges ↦ do
      handle ← call X H (H.set_fan_curve (static_curve ranges (length current.points) static_speed))
      pure (handle ∷ [])
  ]

  unfoldable pub set_static_pwm : F64 → Action X H (List H.CommitHandle)
  unfolding first_hw_mon
  set_static_pwm static_speed = do
    first_hw_mon X H
    call X H (H.set_fan_control_method H.manual_method)
    call X H (H.set_fan_pwm (H.scale 255 static_speed))
    pure []

  unfoldable pub set_static_fan_control : F64 → Action X H (List H.CommitHandle)
  unfolding stop_fan_control set_static_curve set_static_pwm
  set_static_fan_control static_speed = do
    stop_fan_control false
    with_state λ s.
        if_ok (H.get_fan_curve s.device) (set_static_curve static_speed)
          (set_static_pwm static_speed)

  unfoldable pub start_curve_fan_control_task :
      FanCurveMap → FanControlSettings → Action X H (Unit {0})
  unfolding stop_fan_control first_hw_mon
  start_curve_fan_control_task points settings = do
    stop_fan_control false
    first_hw_mon X H
    ask X H (λ d. if nat_beq (H.count_temps d) 0 then err no_temperature else ok tt)
    call X H (H.set_fan_control_method H.manual_method)
    modify (λ s. record s { fan_control_handle = some (points, settings) })

  -- The values of the firmware are only written where they change.
  unfoldable pub set_changed : FanInfo → Option ℕ → Action X H (List H.CommitHandle)
  set_changed field none = pure []
  set_changed field (some value) = do
    current ← ask X H (H.get_fan_info field)
    if nat_beq current value
        then pure []
        else (do handle ← call X H (H.set_fan_info field value); pure (handle ∷ []))

  unfoldable pub reset_fan_info : FanInfo → Action X H (Unit {0})
  reset_fan_info field = with_state λ s.
      if_ok (H.get_fan_info field s.device) (λ current. logged (call X H (H.reset_fan_info field)))
        (pure tt)

  unfoldable pub reset_pmfw_settings : Action X H (Unit {0})
  unfolding reset_fan_info
  reset_pmfw_settings = do
    reset_fan_info fan_target_temperature
    reset_fan_info fan_acoustic_target
    reset_fan_info fan_acoustic_limit
    reset_fan_info fan_minimum_pwm

module _ (X : Crates) (H : GpuHandle X) (F : Floats) where
  unfoldable pub set_curve : FanCurveMap → PmfwCurve → Action X H (List H.CommitHandle)
  set_curve points current = do
    new_curve ← ask X H (λ d. into_pmfw_curve F points current)
    handle ← call X H (H.set_fan_curve new_curve)
    pure (handle ∷ [])

  unfoldable pub start_curve_fan_control :
      FanCurveMap → FanControlSettings → Action X H (List H.CommitHandle)
  unfolding set_curve start_curve_fan_control_task
  start_curve_fan_control points settings = with_state λ s.
      if_ok (H.get_fan_curve s.device) (set_curve points)
        (do start_curve_fan_control_task X H points settings; pure [])

  unfoldable pub control_fans :
      FanControlMode → FanControlSettings → Action X H (List H.CommitHandle)
  unfolding set_static_fan_control start_curve_fan_control
  control_fans static settings = set_static_fan_control X H settings.static_speed
  control_fans curve settings =
      if is_empty settings.curve_points
      then raise empty_fan_curve
      else start_curve_fan_control settings.curve_points settings
