-- ===== src/Config/Clocks.antt =====
-- `Gpu::apply_clocks_command` and `Gpu::is_core_clocks_used` of lact-daemon/src/config.rs.
pub mod Settings
use yagc.Common.{
  ℕ, ℤ, Bool, Option, none, some, List, [], ◌∷◌, ◌&&◌, not, is_some, is_empty, nat_eq,
}
use yagc.Crates.{Crates}
use yagc.Config.{ClocksConfiguration, default_clocks, Gpu}

pub data ClockspeedType : Type 0 where
  max_core_clock max_memory_clock max_voltage : ClockspeedType
  min_core_clock min_memory_clock min_voltage : ClockspeedType
  voltage_offset : ClockspeedType
  gpu_clock_offset mem_clock_offset : ℕ → ClockspeedType
  reset : ClockspeedType

pub record SetClocksCommand : Type 0 where
  pub kind : ClockspeedType
  pub value : Option ℤ

module _ (X : Crates) where
  -- `Some(value)` is inserted at the power state, `None` removes it.
  unfoldable pub set_offset : X.IndexMap ℕ ℤ → ℕ → Option ℤ → X.IndexMap ℕ ℤ
  set_offset offsets pstate (some value) = X.set_entry offsets pstate value
  set_offset offsets pstate none = X.shift_remove offsets pstate

  unfoldable pub change_clocks :
      ClocksConfiguration X → ClockspeedType → Option ℤ → ClocksConfiguration X
  unfolding set_offset
  change_clocks clocks max_core_clock value = record clocks { max_core_clock = value }
  change_clocks clocks max_memory_clock value = record clocks { max_memory_clock = value }
  change_clocks clocks max_voltage value = record clocks { max_voltage = value }
  change_clocks clocks min_core_clock value = record clocks { min_core_clock = value }
  change_clocks clocks min_memory_clock value = record clocks { min_memory_clock = value }
  change_clocks clocks min_voltage value = record clocks { min_voltage = value }
  change_clocks clocks voltage_offset value = record clocks { voltage_offset = value }
  change_clocks clocks (gpu_clock_offset pstate) value = record clocks {
    gpu_clock_offsets = set_offset clocks.gpu_clock_offsets pstate value;
  }
  change_clocks clocks (mem_clock_offset pstate) value = record clocks {
    mem_clock_offsets = set_offset clocks.mem_clock_offsets pstate value;
  }
  change_clocks clocks reset value = default_clocks X

  unfoldable pub apply_clocks_command : Gpu X → SetClocksCommand → Gpu X
  apply_clocks_command gpu command = record gpu {
    clocks_configuration = change_clocks gpu.clocks_configuration command.kind command.value;
  }

  -- The closure of `batch_set_clocks_value`.
  unfoldable pub apply_clocks_commands : Gpu X → List SetClocksCommand → Gpu X
  apply_clocks_commands gpu [] = gpu
  apply_clocks_commands gpu (command ∷ commands) =
      apply_clocks_commands (apply_clocks_command gpu command) commands

  -- Two values of the configuration differ from the default as soon as one field does.
  unfoldable pub is_core_clocks_used : Gpu X → Bool
  is_core_clocks_used gpu =
      let clocks = gpu.clocks_configuration in
      not (
        not (is_some clocks.min_core_clock)
        && not (is_some clocks.min_memory_clock)
        && not (is_some clocks.min_voltage)
        && not (is_some clocks.max_core_clock)
        && not (is_some clocks.max_memory_clock)
        && not (is_some clocks.max_voltage)
        && is_empty (X.iter clocks.gpu_clock_offsets)
        && is_empty (X.iter clocks.mem_clock_offsets)
        && not (is_some clocks.voltage_offset))
