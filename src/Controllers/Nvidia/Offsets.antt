-- ===== src/Controllers/Nvidia/Offsets.antt =====
-- The clock offsets that are in force after a configuration was applied.
use yagc.Common.{ℤ, ◌≡◌, refl, ◌∙◌, nat_eq, int_eq, ok, if◌then◌else◌, unwrap_or, Option}
use yagc.Common.Exec.{◌>>◌}
use yagc.Common.Entries.{lookup}
use yagc.Crates.{Crates}
use yagc.Config.{Gpu}
use yagc.Controllers.Nvidia.{
  Clock, graphics, memory, same_clock, Nvml, NvidiaGpuController, cleanup_clocks, apply_offsets,
  apply_power_cap, apply_fan_control, apply_config,
}
use yagc.Controllers.Nvidia.Unmoved.{apply_power_cap-Unmoved, apply_fan_control-Unmoved}
use yagc.Controllers.Nvidia.Tracked.{KeepsOffsets, IsTracked, IsLeft}
use yagc.Controllers.Nvidia.Leads.{Leads, Leads-bind, Leads-same, Leads-retarget, Leads-before}
use yagc.Controllers.Nvidia.Reset.{cleanup_clocks-Leads}
use yagc.Controllers.Nvidia.Apply.{IsDistinct, apply_offsets-Leads}

module _ (X : Crates) (N : Nvml) where
  -- The configured offset of a clock in a state.
  unfoldable pub configured_in : Gpu X → Clock → N.Pstate → Option ℤ
  configured_in config graphics q = X.get config.clocks_configuration.gpu_clock_offsets (N.number q)
  configured_in config memory q = X.get config.clocks_configuration.mem_clock_offsets (N.number q)

module _ (X : Crates) (N : Nvml) (L : KeepsOffsets N) where
  -- First the offsets of the one clock, then those of the other.
  both_applied :
      (config : Gpu X) (k : Clock) (q : N.Pstate) (start : ℤ) {now : ℤ}
      → now ≡ (
          if same_clock k graphics
          then unwrap_or
              (lookup (X.iter config.clocks_configuration.gpu_clock_offsets) (N.number q))
              start
          else start)
      → (if same_clock k memory
          then unwrap_or
              (lookup (X.iter config.clocks_configuration.mem_clock_offsets) (N.number q))
              now
          else now)
        ≡ unwrap_or (configured_in X N config k q) start
  unfolding same_clock configured_in
  both_applied config graphics q start first =
      rw (X.get-iter config.clocks_configuration.gpu_clock_offsets (N.number q)) first
  both_applied config memory q start first =
      rw (X.get-iter config.clocks_configuration.mem_clock_offsets (N.number q), first) refl

  apply_offsets-configured :
      (config : Gpu X) (s : NvidiaGpuController X N)
      → IsTracked X N L s
      → IsDistinct (X.iter config.clocks_configuration.gpu_clock_offsets)
      → IsDistinct (X.iter config.clocks_configuration.mem_clock_offsets)
      → Leads X N L
          (apply_offsets X N graphics (X.iter config.clocks_configuration.gpu_clock_offsets)
            >> (apply_offsets X N memory (X.iter config.clocks_configuration.mem_clock_offsets)
                >> apply_fan_control X N config.fan_control_enabled config.fan_control_settings))
          s
          (λ k q v. v ≡ unwrap_or (configured_in X N config k q) (L.offset s.driver k q))
  apply_offsets-configured config s tracked gpu mem =
      let clocks = config.clocks_configuration in
      let fans = apply_fan_control X N config.fan_control_enabled config.fan_control_settings in
      Leads-bind X N L (apply_offsets X N graphics (X.iter clocks.gpu_clock_offsets))
        (λ _. apply_offsets X N memory (X.iter clocks.mem_clock_offsets) >> fans) s _ _
        (apply_offsets-Leads X N L graphics (X.iter clocks.gpu_clock_offsets) s gpu tracked)
        λ _ t t_tracked t_at.
          Leads-bind X N L (apply_offsets X N memory (X.iter clocks.mem_clock_offsets)) (λ _. fans)
            t _ _
            (apply_offsets-Leads X N L memory (X.iter clocks.mem_clock_offsets) t mem t_tracked)
            λ _ u u_tracked u_at.
              Leads-retarget X N L fans u _ _
                (Leads-same X N L fans u
                  ((apply_fan_control-Unmoved X N L config.fan_control_enabled
                      config.fan_control_settings).unmoved
                    u)
                  u_tracked)
                (λ k q v h.
                  h ∙ u_at k q ∙ both_applied config k q (L.offset s.driver k q) (t_at k q))

  -- The configured offset, or what a reset left of the one before.
  abbrev pub Applied : Gpu X → NvidiaGpuController X N → Clock → N.Pstate → ℤ → Type 0
  Applied config s k q v =
      (left : ℤ) × IsLeft X N L (L.answered k q) (L.offset s.driver k q) left
      × (v ≡ unwrap_or (configured_in X N config k q) left)

  apply_config-Leads :
      (config : Gpu X) (s : NvidiaGpuController X N)
      → IsTracked X N L s
      → IsDistinct (X.iter config.clocks_configuration.gpu_clock_offsets)
      → IsDistinct (X.iter config.clocks_configuration.mem_clock_offsets)
      → Leads X N L (apply_config X N config) s (Applied config s)
  unfolding apply_config
  apply_config-Leads config s tracked gpu mem =
      Leads-before X N L (apply_power_cap X N config.power_cap) _ s (Applied config s)
        (apply_power_cap-Unmoved X N L config.power_cap) tracked
        λ _ t t_tracked t_at.
          Leads-bind X N L (cleanup_clocks X N) _ t _ (Applied config s)
            (cleanup_clocks-Leads X N L t t_tracked)
            λ _ u u_tracked u_at.
              Leads-retarget X N L _ u _ _ (apply_offsets-configured config u u_tracked gpu mem)
                (λ k q v h. (L.offset u.driver k q, rw (t_at k q) at (u_at k q), h))

  -- Applying a configuration to a controller whose remembered offsets are those in force, and where
  -- an offset that is not remembered is zero if the driver always answers about it, leads to one of
  -- which the same holds, also when it fails half-way and whichever questions the driver leaves
  -- unanswered. The configured offsets are listed once for
  -- each state, as an `IndexMap` lists its entries.
  pub apply_config-IsTracked :
      (config : Gpu X) (s : NvidiaGpuController X N)
      → IsTracked X N L s
      → IsDistinct (X.iter config.clocks_configuration.gpu_clock_offsets)
      → IsDistinct (X.iter config.clocks_configuration.mem_clock_offsets)
      → IsTracked X N L (apply_config X N config s).1
  apply_config-IsTracked config s tracked gpu mem =
      (apply_config-Leads config s tracked gpu mem).keeps

  -- When a configuration was applied to a controller whose remembered offsets are those in force,
  -- and where an offset that is not remembered is zero if the driver always answers about it, then
  -- the offset in force of each clock in each performance state is the configured one. Where none
  -- is configured it is zero, whatever was applied before, if the driver always answers about that
  -- clock and state; if it does not, the offset is zero or as it was before. The configured
  -- offsets are listed once for each state, as an `IndexMap` lists its entries.
  pub apply_config-offsets :
      (config : Gpu X) (s : NvidiaGpuController X N)
      → IsTracked X N L s
      → IsDistinct (X.iter config.clocks_configuration.gpu_clock_offsets)
      → IsDistinct (X.iter config.clocks_configuration.mem_clock_offsets)
      → (apply_config X N config s).0 ≡ ok tt
      → (k : Clock) (q : N.Pstate)
      → (left : ℤ) × IsLeft X N L (L.answered k q) (L.offset s.driver k q) left
        × (L.offset (apply_config X N config s).1.driver k q
            ≡ unwrap_or (configured_in X N config k q) left)
  apply_config-offsets config s tracked gpu mem done =
      (apply_config-Leads config s tracked gpu mem).leads tt done
