-- ===== src/Controllers/Amd/FanFrames.antt =====
-- What the parts of the control of fans leave as it is, if the calls on the device do.
use yagc.Common.{
  Option, none, some, List, [], ◌∷◌, Result, ok, err, no_monitor, curve_not_modifiable, length,
}
use yagc.Common.Exec.{pure, raise, ◌>>=◌}
use yagc.Common.Triples.{
  Keeps, Keeps-bind, Keeps-still, Keeps-if, Keeps-course, Keeps-if_ok, Keeps-logged,
}
use yagc.Crates.{Crates}
use yagc.Config.{F64, FanCurveMap, FanControlSettings}
use yagc.FanCurve.{Floats, PmfwCurve, into_pmfw_curve}
use yagc.Controllers.Amd.{GpuHandle, AmdGpuController, Action, call, ask, first_hw_mon}
use yagc.Controllers.Amd.Frames.{IsUndisturbed, Keeps-ask, one_handle}
use yagc.Controllers.Amd.Fans.{
  reset_curve, reset_method, reset_fan_mode, await_task, static_curve, set_static_curve,
  set_static_pwm, set_curve,
}

module _ (X : Crates) (H : GpuHandle X) {V : Type 0} (view : AmdGpuController X H → V)
    (U : IsUndisturbed X H view) where
  pub done : {A : Type 0} (a : A) → Keeps view (pure a)
  done a = Keeps-still view (λ s. ok a)

  reset_curve-Keeps : Keeps view (reset_curve X H)
  unfolding reset_curve
  reset_curve-Keeps = Keeps-course view _ λ s.
      Keeps-if_ok view (H.get_fan_curve s.device) _ _
        (λ current. Keeps-logged view (call X H H.reset_fan_curve) U.reset_fan_curve) (done tt)

  reset_method-Keeps : (current : Result H.FanControlMethod) → Keeps view (reset_method X H current)
  unfolding reset_method
  reset_method-Keeps (err e) = done tt
  reset_method-Keeps (ok current) =
      Keeps-if view (H.is_auto current) _ _ (done tt) (U.method H.auto_method)

  pub reset_fan_mode-Keeps : Keeps view (reset_fan_mode X H)
  unfolding reset_fan_mode
  reset_fan_mode-Keeps = Keeps-bind view (reset_curve X H) _ reset_curve-Keeps λ _.
      Keeps-course view _ λ s.
        Keeps-if view H.has_monitor _ _ (reset_method-Keeps (H.get_fan_control_method s.device))
          (done tt)

  pub await_task-Keeps :
      (running : Option (FanCurveMap × FanControlSettings)) → Keeps view (await_task X H running)
  unfolding await_task
  await_task-Keeps none = done tt
  await_task-Keeps (some task) = U.join_task task

  pub first_hw_mon-Keeps : Keeps view (first_hw_mon X H)
  unfolding first_hw_mon
  first_hw_mon-Keeps =
      Keeps-if view H.has_monitor (pure tt) (raise no_monitor) (done tt)
        (Keeps-still view (λ s. err no_monitor))

  pub set_static_curve-Keeps :
      (static_speed : F64) (current : PmfwCurve)
      → Keeps view (set_static_curve X H static_speed current)
  unfolding set_static_curve
  set_static_curve-Keeps static_speed current =
      elim current.allowed_ranges
        as (λ ranges. Keeps view (elim ranges as (λ _. Action X H (List H.CommitHandle)) [
          | none ↦ raise curve_not_modifiable
          | some ranges ↦ do
            handle ←
                call X H
                  (H.set_fan_curve (static_curve X H ranges (length current.points) static_speed))
            pure (handle ∷ [])
        ])) [
          | none ↦ Keeps-still view (λ s. err curve_not_modifiable)
          | some ranges ↦
              one_handle X H view
                (H.set_fan_curve (static_curve X H ranges (length current.points) static_speed))
                (U.fan_curve (static_curve X H ranges (length current.points) static_speed))
        ]

  pub set_static_pwm-Keeps : (static_speed : F64) → Keeps view (set_static_pwm X H static_speed)
  unfolding set_static_pwm
  set_static_pwm-Keeps static_speed = Keeps-bind view (first_hw_mon X H) _ first_hw_mon-Keeps λ _.
      Keeps-bind view (call X H (H.set_fan_control_method H.manual_method)) _
        (U.method H.manual_method)
        λ _.
          Keeps-bind view (call X H (H.set_fan_pwm (H.scale 255 static_speed))) _
            (U.pwm (H.scale 255 static_speed)) (λ _. done [])

  pub set_curve-Keeps :
      (F : Floats) (points : FanCurveMap) (current : PmfwCurve)
      → Keeps view (set_curve X H F points current)
  unfolding set_curve
  set_curve-Keeps F points current =
      Keeps-bind view (ask X H (λ d. into_pmfw_curve F points current)) _
        (Keeps-ask X H view (λ d. into_pmfw_curve F points current))
        (λ new_curve. one_handle X H view (H.set_fan_curve new_curve) (U.fan_curve new_curve))
