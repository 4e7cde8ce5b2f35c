-- ===== src/Controllers/Intel/Clocks.antt =====
-- `apply_config`, `cleanup_clocks` and `get_clocks_info` of intel.rs.
use yagc.Common.{
  ℕ, ℤ, pos, Option, none, some, List, [], ◌∷◌, wrap_i32, is_some, ◌||◌, if◌then◌else◌,
}
use yagc.Common.Exec.{pure, logged, with_state, ◌>>◌}
use yagc.Common.Text.{codes}
use yagc.Crates.{Crates}
use yagc.Config.{F64, Gpu}
use yagc.Controllers.Intel.{
  FileSystem, IntelGpuController, Action, FrequencyType, boost, min_freq, max_freq, rp0, rpe, rpn,
  read_freq, write_freq, write_hwmon_file,
}

-- `lact_schema::IntelClocksTable`
pub record IntelClocksTable : Type 0 where
  pub gt_freq : Option (ℕ × ℕ)
  pub rp0_freq : Option ℕ
  pub rpe_freq : Option ℕ
  pub rpn_freq : Option ℕ

unfoldable pub zip : Option ℕ → Option ℕ → Option (ℕ × ℕ)
zip (some a) (some b) = some (a, b)
zip _ _ = none

module _ (W : FileSystem) where
  unfoldable pub set_freq : FrequencyType → Option ℤ → Action W (Unit {0})
  unfolding write_freq
  set_freq freq none = pure tt
  set_freq freq (some clock) = write_freq W freq clock

  unfoldable pub write_power_cap : Option F64 → Action W (Unit {0})
  unfolding write_hwmon_file
  write_power_cap none = pure tt
  write_power_cap (some power_cap) =
      write_hwmon_file W (codes "power") (codes "_max") (W.print_u64 (W.microwatts power_cap))

  -- `rp0 as i32`; an error only goes to the log.
  unfoldable pub reset_freq : FrequencyType → Option ℕ → Action W (Unit {0})
  unfolding write_freq
  reset_freq freq none = pure tt
  reset_freq freq (some clock) = logged (write_freq W freq (wrap_i32 (pos clock)))

  unfoldable pub cleanup_clocks : Action W (Unit {0})
  unfolding reset_freq read_freq
  cleanup_clocks = do
    with_state λ s. reset_freq max_freq (read_freq W rp0 s)
    with_state λ s. reset_freq min_freq (read_freq W rpn s)

  unfoldable pub get_clocks_info : IntelGpuController W → Option IntelClocksTable
  unfolding read_freq zip
  get_clocks_info s =
      let gt_freq = zip (read_freq W min_freq s) (read_freq W max_freq s) in
      let rp0_freq = read_freq W rp0 s in
      let rpe_freq = read_freq W rpe s in
      let rpn_freq = read_freq W rpn s in
      if is_some gt_freq || is_some rp0_freq || is_some rpe_freq || is_some rpn_freq
      then some (record {
        gt_freq = gt_freq;
        rp0_freq = rp0_freq;
        rpe_freq = rpe_freq;
        rpn_freq = rpn_freq;
      })
      else none

  -- The values of the power states that can be read, all of which are enabled.
  unfoldable pub readable : List FrequencyType → IntelGpuController W → List ℕ
  unfolding read_freq
  readable [] s = []
  readable (freq ∷ rest) s =
      let others = readable rest s in
      elim (read_freq W freq s) [ none ↦ others | some value ↦ value ∷ others ]

  unfoldable pub get_power_states : IntelGpuController W → List ℕ
  unfolding readable
  get_power_states s = readable (rpn ∷ rpe ∷ rp0 ∷ boost ∷ []) s

module _ (X : Crates) (W : FileSystem) where
  unfoldable pub apply_config : Gpu X → Action W (Unit {0})
  unfolding set_freq write_power_cap
  apply_config config = do
    set_freq W max_freq config.clocks_configuration.max_core_clock
    set_freq W min_freq config.clocks_configuration.min_core_clock
    write_power_cap W config.power_cap
