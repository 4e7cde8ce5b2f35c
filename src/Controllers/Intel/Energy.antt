-- ===== src/Controllers/Intel/Energy.antt =====
-- `get_power_usage` of intel.rs. Where the card only has an energy counter, the power is what it
-- counted since the last reading, divided by the time in whole milliseconds.
use yagc.Common.{
  ℕ, ◌+◌, ◌-◌, ◌*◌, ◌/◌, ◌%◌, ◌^◌, ◌<◌, ◌≡◌, refl, ◌↔◌, Option, none, some, if◌then◌else◌, nat_beq,
  arith,
}
use yagc.Common.Text.{codes}
use yagc.FanCurve.{Outcome, value, panic}
use yagc.Controllers.Intel.{FileSystem, IntelGpuController, read_hwmon_file}

-- In microwatts, between two instants in nanoseconds, whose difference stops at zero and is cut to
-- whole milliseconds and to a `u64`. The counters wrap; a division by zero panics.
unfoldable pub power_since : ℕ → ℕ → Option (ℕ × ℕ) → Outcome (Option ℕ)
power_since now energy none = value none
power_since now energy (some (last_timestamp, last_energy)) =
    let time_delta = (now - last_timestamp) / 1000000 % 2 ^ 64 in
    let energy_delta = (energy + 2 ^ 64 - last_energy) % 2 ^ 64 in
    if nat_beq time_delta 0 then panic else value (some (energy_delta / time_delta * 1000 % 2 ^ 64))

power_since_panics_iff :
    (now energy : ℕ) (last : Option (ℕ × ℕ))
    → now < 1000000 * 2 ^ 64
    → (power_since now energy last ≡ panic) ↔ (
        (last_timestamp : ℕ) × (last_energy : ℕ) × (last ≡ some (last_timestamp, last_energy))
        × (now < last_timestamp + 1000000))
unfolding power_since
power_since_panics_iff now energy none early =
    (λ h. absurd (ground (arith, h)), λ (t, e, h, l). absurd (ground (arith, h)))
power_since_panics_iff now energy (some (t, last)) early =
    (λ h. (t, last, refl, ground (arith, h)), λ (u, e, h, l). ground (arith, h, l))

module _ (W : FileSystem) where
  unfoldable pub count_energy :
      ℕ → Option ℕ → IntelGpuController W → Outcome (Option ℕ) × IntelGpuController W
  unfolding power_since
  count_energy now none s = (value none, s)
  count_energy now (some energy) s = (
    power_since now energy s.last_energy_value,
    record s { last_energy_value = some (now, energy) },
  )

  -- The reading of the power itself is preferred.
  unfoldable pub get_power_usage :
      ℕ → IntelGpuController W → Outcome (Option ℕ) × IntelGpuController W
  unfolding count_energy read_hwmon_file
  get_power_usage now s = elim (read_hwmon_file W (codes "power") (codes "_input") s) [
    | some power ↦ (value (some power), s)
    | none ↦ count_energy now (read_hwmon_file W (codes "energy") (codes "_input") s) s
  ]

  usage_panics_iff :
      (now : ℕ) (power energy : Option ℕ) (s : IntelGpuController W)
      → now < 1000000 * 2 ^ 64
      → ((elim power as (λ _. Outcome (Option ℕ) × IntelGpuController W) [
        | some power ↦ (value (some power), s)
        | none ↦ count_energy now energy s
      ]).0
          ≡ panic)
        ↔ ((power ≡ none)
            × (counted : ℕ) × (energy ≡ some counted)
            × (last_timestamp : ℕ) × (last_energy : ℕ) × (s.last_energy_value
                ≡ some (last_timestamp, last_energy))
            × (now < last_timestamp + 1000000))
  unfolding count_energy
  usage_panics_iff now (some power) energy s early =
      (λ h. absurd (ground (arith, h)), λ h. absurd (ground (arith, h.0)))
  usage_panics_iff now none none s early =
      (λ h. absurd (ground (arith, h)), λ h. absurd (ground (arith, h.2)))
  usage_panics_iff now none (some counted) s early = (
    λ h.
        let (t, last, at, soon) =
          (power_since_panics_iff now counted s.last_energy_value early).0 h in
        (refl, counted, refl, t, last, at, soon),
    λ h. (power_since_panics_iff now counted s.last_energy_value early).1 (h.3, h.4, h.5, h.6),
  )

  -- While the clock has not run for 2 ^ 64 milliseconds, a reading of the power panics exactly if
  -- the card has only an energy counter and the last reading was not at least a millisecond ago.
  pub get_power_usage_panics_iff :
      (now : ℕ) (s : IntelGpuController W)
      → now < 1000000 * 2 ^ 64
      → ((get_power_usage now s).0 ≡ panic) ↔ (
          (read_hwmon_file W (codes "power") (codes "_input") s ≡ none)
          × (energy : ℕ) × (read_hwmon_file W (codes "energy") (codes "_input") s ≡ some energy)
          × (last_timestamp : ℕ) × (last_energy : ℕ) × (s.last_energy_value
              ≡ some (last_timestamp, last_energy))
          × (now < last_timestamp + 1000000))
  unfolding get_power_usage
  get_power_usage_panics_iff now s early =
      usage_panics_iff now (read_hwmon_file W (codes "power") (codes "_input") s)
        (read_hwmon_file W (codes "energy") (codes "_input") s) s early
