-- ===== src/Controllers/Amd/PowerCap.antt =====
-- The first part of `apply_config` in amd.rs: the limit on the power, for which the GPU is first
-- clocked down where it draws more.
use yagc.Common.{
  ℕ, zero, suc, Bool, true, false, Option, none, some, Result, ok, err, if◌then◌else◌, nat_beq,
}
use yagc.Common.Exec.{pure, modify, with_state, if_ok, ◌>>=◌, ◌>>◌}
use yagc.Crates.{Crates}
use yagc.Config.{F64}
use yagc.Controllers.Amd.{GpuHandle, Action, call, ask, first_hw_mon}

-- `GPU_CLOCKDOWN_TIMEOUT_SECS`, in pauses of 250 ms
abbrev pub clockdown_polls : ℕ
clockdown_polls = 12

module _ (X : Crates) (H : GpuHandle X) where
  unfoldable pub is_lowest : Result (Option ℕ) → Bool
  is_lowest (err e) = true
  is_lowest (ok none) = false
  is_lowest (ok (some level)) = nat_beq level 0

  -- The loop ends at the lowest level, where the level cannot be read, and when the time is out,
  -- after so many pauses.
  unfoldable pub wait_until_lowest_clock_level : ℕ → H.Device → H.Device
  unfolding is_lowest
  wait_until_lowest_clock_level zero d = d
  wait_until_lowest_clock_level (suc polls) d =
      let later = wait_until_lowest_clock_level polls (H.sleep d) in
      if is_lowest (H.active_core_clock_level d) then d else later

  unfoldable pub current_usage : H.Device → Result F64
  current_usage d = elim (H.get_power_input d) [
    | ok usage ↦ ok usage
    | err e ↦ H.get_power_average d
  ]

  -- Once the lowest level is forced, the GPU gets time to reach it.
  unfoldable pub clock_down :
      X.PerformanceLevel → Result (Unit {0}) → Action X H (Option X.PerformanceLevel)
  unfolding wait_until_lowest_clock_level
  clock_down level (err e) = pure none
  clock_down level (ok _) = do
    modify (λ s. record s { device = wait_until_lowest_clock_level clockdown_polls s.device })
    pure (some level)

  unfoldable pub force_lowest : X.PerformanceLevel → Action X H (Option X.PerformanceLevel)
  unfolding clock_down
  force_lowest level s =
      let (forced, t) = call X H (H.set_power_force_performance_level H.low) s in
      clock_down level forced t

  -- The original performance level, if it was changed.
  unfoldable pub prepare_cap : F64 → F64 → Action X H (Option X.PerformanceLevel)
  unfolding force_lowest
  prepare_cap power_cap usage = with_state λ s.
      if H.above usage power_cap
      then if_ok (H.get_power_force_performance_level s.device) force_lowest (pure none)
      else pure none

  unfoldable pub is_current_cap : F64 → Result F64 → Bool
  is_current_cap power_cap (ok value) = H.same power_cap value
  is_current_cap power_cap (err e) = false

  unfoldable pub set_new_cap : F64 → Action X H (Unit {0})
  unfolding is_current_cap
  set_new_cap power_cap = with_state λ s.
      if is_current_cap power_cap (H.get_power_cap s.device)
      then pure tt
      else call X H (H.set_power_cap power_cap)

  unfoldable pub restore_level : Option X.PerformanceLevel → Action X H (Unit {0})
  restore_level none = pure tt
  restore_level (some level) = call X H (H.set_power_force_performance_level level)

  unfoldable pub apply_power_cap : Option F64 → Action X H (Unit {0})
  unfolding first_hw_mon current_usage prepare_cap set_new_cap restore_level
  apply_power_cap (some power_cap) = do
    first_hw_mon X H
    usage ← ask X H current_usage
    original ← prepare_cap power_cap usage
    set_new_cap power_cap
    restore_level original
  apply_power_cap none = with_state λ s.
      if H.has_monitor
      then if_ok (H.get_power_cap_default s.device) set_new_cap (pure tt)
      else pure tt
