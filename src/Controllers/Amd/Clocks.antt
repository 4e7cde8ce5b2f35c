-- ===== src/Controllers/Amd/Clocks.antt =====
-- `apply_to_table` of amd.rs, the part of `apply_config` that writes the table of clocks, and
-- `cleanup_clocks`.
use yagc.Common.{ℤ, Option, none, some, List, [], ◌∷◌, if◌then◌else◌}
use yagc.Common.Exec.{Exec, pure, with_state, if_ok, modify, ◌>>=◌, ◌>>◌}
use yagc.Crates.{Crates}
use yagc.Config.{ClocksConfiguration, Gpu}
use yagc.Config.Clocks.{is_core_clocks_used}
use yagc.Controllers.Amd.{
  GpuHandle, Action, call, ask, TableValue, min_sclk, min_mclk, table_min_voltage, max_sclk,
  max_mclk, table_max_voltage,
}

module _ (X : Crates) (H : GpuHandle X) where
  unfoldable pub set_configured : TableValue → Option ℤ → Exec H.Table (Unit {0})
  set_configured field none = pure tt
  set_configured field (some value) = H.set_table_value field value

  unfoldable pub apply_voltage_offset : Option ℤ → Exec H.Table (Unit {0})
  apply_voltage_offset (some offset) = H.set_voltage_offset offset
  apply_voltage_offset none = modify H.clear_voltage_offset

  unfoldable pub prepare_vega20 : Option ℤ → Exec H.Table (Unit {0})
  unfolding apply_voltage_offset
  prepare_vega20 offset = do
    modify (λ table. if H.is_vddc_curve_empty table then H.clear_table table else table)
    modify H.normalize_vddc_curve
    apply_voltage_offset offset

  unfoldable pub apply_to_table : ClocksConfiguration X → Exec H.Table (Unit {0})
  unfolding prepare_vega20 set_configured
  apply_to_table clocks = do
    with_state λ table. if H.is_vega20 table then prepare_vega20 clocks.voltage_offset else pure tt
    set_configured min_sclk clocks.min_core_clock
    set_configured min_mclk clocks.min_memory_clock
    set_configured table_min_voltage clocks.min_voltage
    set_configured max_sclk clocks.max_core_clock
    set_configured max_mclk clocks.max_memory_clock
    set_configured table_max_voltage clocks.max_voltage

  -- A copy of the table that the device has is changed and written.
  unfoldable pub write_table : ClocksConfiguration X → Action X H (List H.CommitHandle)
  unfolding apply_to_table
  write_table clocks = do
    original ← ask X H H.get_clocks_table
    let (result, table) = apply_to_table clocks original
    ask X H (λ d. result)
    ask X H (λ d. H.get_commands original table)
    handle ← call X H (H.set_clocks_table table)
    pure (handle ∷ [])

  unfoldable pub apply_clocks : Gpu X → Action X H (List H.CommitHandle)
  unfolding write_table is_core_clocks_used
  apply_clocks config =
      if is_core_clocks_used X config then write_table config.clocks_configuration else pure []

  unfoldable pub cleanup_clocks : Action X H (Unit {0})
  cleanup_clocks =
      with_state
        λ s. if_ok (H.get_clocks_table s.device) (λ table. call X H H.reset_clocks_table) (pure tt)
