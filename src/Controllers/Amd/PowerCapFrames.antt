-- ===== src/Controllers/Amd/PowerCapFrames.antt =====
-- Applying the power limit does not concern the task that controls the fans.
use yagc.Common.{refl, Option, none, some, Result, ok, err, no_monitor}
use yagc.Common.Exec.{Exec, pure, raise}
use yagc.Common.Triples.{Keeps, Keeps-bind, Keeps-still, Keeps-if, Keeps-course, Keeps-if_ok}
use yagc.Crates.{Crates}
use yagc.Config.{F64, FanCurveMap, FanControlSettings}
use yagc.Controllers.Amd.{GpuHandle, AmdGpuController, call, ask, first_hw_mon}
use yagc.Controllers.Amd.PowerCap.{apply_power_cap}
use yagc.Controllers.Amd.PowerCap.{
  clock_down, force_lowest, prepare_cap, set_new_cap, restore_level, current_usage,
}
use yagc.Controllers.Amd.Frames.{Keeps-ask}

module _ (X : Crates) (H : GpuHandle X) where
  abbrev task : AmdGpuController X H → Option (FanCurveMap × FanControlSettings)
  task s = s.fan_control_handle

  Keeps-call : {A : Type 0} (m : Exec H.Device A) → Keeps task (call X H m)
  Keeps-call m = record { kept = λ s. refl }

  first_hw_mon-Keeps : Keeps task (first_hw_mon X H)
  unfolding first_hw_mon
  first_hw_mon-Keeps =
      Keeps-if task H.has_monitor (pure tt) (raise no_monitor) (Keeps-still task (λ s. ok tt))
        (Keeps-still task (λ s. err no_monitor))

  clock_down-Keeps :
      (level : X.PerformanceLevel) (forced : Result (Unit {0}))
      → Keeps task (clock_down X H level forced)
  unfolding clock_down
  clock_down-Keeps level (ok _) = record { kept = λ s. refl }
  clock_down-Keeps level (err e) = Keeps-still task (λ s. ok none)

  force_lowest-Keeps : (level : X.PerformanceLevel) → Keeps task (force_lowest X H level)
  unfolding force_lowest
  force_lowest-Keeps level = record {
    kept = λ s.
        let (forced, t) = call X H (H.set_power_force_performance_level H.low) s in
        (clock_down-Keeps level forced).kept t;
  }

  prepare_cap-Keeps : (power_cap usage : F64) → Keeps task (prepare_cap X H power_cap usage)
  unfolding prepare_cap
  prepare_cap-Keeps power_cap usage = Keeps-course task _ λ s.
      Keeps-if task (H.above usage power_cap) _ _
        (Keeps-if_ok task (H.get_power_force_performance_level s.device) _ _ force_lowest-Keeps
          (Keeps-still task (λ s. ok none)))
        (Keeps-still task (λ s. ok none))

  set_new_cap-Keeps : (power_cap : F64) → Keeps task (set_new_cap X H power_cap)
  unfolding set_new_cap
  set_new_cap-Keeps power_cap = Keeps-course task _ λ s.
      Keeps-if task _ (pure tt) (call X H (H.set_power_cap power_cap))
        (Keeps-still task (λ s. ok tt)) (Keeps-call (H.set_power_cap power_cap))

  restore_level-Keeps : (level : Option X.PerformanceLevel) → Keeps task (restore_level X H level)
  unfolding restore_level
  restore_level-Keeps none = Keeps-still task (λ s. ok tt)
  restore_level-Keeps (some level) = Keeps-call (H.set_power_force_performance_level level)

  pub apply_power_cap-Keeps : (power_cap : Option F64) → Keeps task (apply_power_cap X H power_cap)
  unfolding apply_power_cap
  apply_power_cap-Keeps none = Keeps-course task _ λ s.
      Keeps-if task H.has_monitor _ (pure tt)
        (Keeps-if_ok task (H.get_power_cap_default s.device) _ (pure tt) set_new_cap-Keeps
          (Keeps-still task (λ s. ok tt)))
        (Keeps-still task (λ s. ok tt))
  apply_power_cap-Keeps (some power_cap) =
      Keeps-bind task (first_hw_mon X H) _ first_hw_mon-Keeps λ _.
        Keeps-bind task (ask X H (current_usage X H)) _ (Keeps-ask X H task (current_usage X H))
          λ usage.
            Keeps-bind task (prepare_cap X H power_cap usage) _ (prepare_cap-Keeps power_cap usage)
              λ original.
                Keeps-bind task (set_new_cap X H power_cap) _ (set_new_cap-Keeps power_cap)
                  (λ _. restore_level-Keeps original)
