-- ===== src/Config/Clocks/Settings.antt =====
-- The clocks configuration as one table from kinds of settings to values, which a command changes
-- at one place and a reset clears.
use yagc.Common.{
  ◌≡◌, refl, ℕ, ℤ, Bool, true, false, Option, none, some, List, [], ◌∷◌, nat_beq, nat_eq, arith,
  if◌then◌else◌,
}
use yagc.Crates.{Crates}
use yagc.Crates.Maps.{get-new, get-set_entry, get-shift_remove}
use yagc.Config.{ClocksConfiguration, Gpu}
use yagc.Config.Clocks.{
  ClockspeedType, max_core_clock, max_memory_clock, max_voltage, min_core_clock, min_memory_clock,
  min_voltage, voltage_offset, gpu_clock_offset, mem_clock_offset, reset, SetClocksCommand,
  set_offset, change_clocks, apply_clocks_command, apply_clocks_commands, is_core_clocks_used,
}

-- The commands are about the same setting.
abbrev pub same_setting : ClockspeedType → ClockspeedType → Bool
same_setting max_core_clock max_core_clock = true
same_setting max_memory_clock max_memory_clock = true
same_setting max_voltage max_voltage = true
same_setting min_core_clock min_core_clock = true
same_setting min_memory_clock min_memory_clock = true
same_setting min_voltage min_voltage = true
same_setting voltage_offset voltage_offset = true
same_setting (gpu_clock_offset p) (gpu_clock_offset q) = nat_beq p q
same_setting (mem_clock_offset p) (mem_clock_offset q) = nat_beq p q
same_setting _ _ = false

module _ (X : Crates) where
  -- What the configuration holds for a setting; a reset is no setting.
  abbrev pub setting : ClocksConfiguration X → ClockspeedType → Option ℤ
  setting clocks max_core_clock = clocks.max_core_clock
  setting clocks max_memory_clock = clocks.max_memory_clock
  setting clocks max_voltage = clocks.max_voltage
  setting clocks min_core_clock = clocks.min_core_clock
  setting clocks min_memory_clock = clocks.min_memory_clock
  setting clocks min_voltage = clocks.min_voltage
  setting clocks voltage_offset = clocks.voltage_offset
  setting clocks (gpu_clock_offset p) = X.get clocks.gpu_clock_offsets p
  setting clocks (mem_clock_offset p) = X.get clocks.mem_clock_offsets p
  setting clocks reset = none

  -- What a command leaves in a setting that held `old`.
  abbrev pub setting_after : ClockspeedType → ClockspeedType → Option ℤ → Option ℤ → Option ℤ
  setting_after reset other value old = none
  setting_after kind other value old = if same_setting kind other then value else old

  get-set_offset :
      (offsets : X.IndexMap ℕ ℤ) (p q : ℕ) (value : Option ℤ)
      → X.get (set_offset X offsets p value) q ≡ (if nat_beq p q then value else X.get offsets q)
  unfolding set_offset
  get-set_offset offsets p q none = get-shift_remove X offsets p q
  get-set_offset offsets p q (some v) = get-set_entry X offsets p q v

  setting-change_clocks :
      (clocks : ClocksConfiguration X) (kind other : ClockspeedType) (value : Option ℤ)
      → setting (change_clocks X clocks kind value) other
        ≡ setting_after kind other value (setting clocks other)
  unfolding change_clocks
  setting-change_clocks clocks (gpu_clock_offset p) (gpu_clock_offset q) value =
      get-set_offset clocks.gpu_clock_offsets p q value
  setting-change_clocks clocks (mem_clock_offset p) (mem_clock_offset q) value =
      get-set_offset clocks.mem_clock_offsets p q value
  setting-change_clocks clocks reset (gpu_clock_offset q) value = get-new X q
  setting-change_clocks clocks reset (mem_clock_offset q) value = get-new X q
  setting-change_clocks clocks _ other value = ground arith

  -- A command on the clocks changes exactly the setting that it names, to the value that it
  -- carries (`None` clears it); a reset clears every setting; nothing else of the GPU's
  -- configuration changes.
  pub setting-apply_clocks_command :
      (gpu : Gpu X) (command : SetClocksCommand)
      → ((other : ClockspeedType)
          → setting (apply_clocks_command X gpu command).clocks_configuration other
            ≡ setting_after command.kind other command.value
                (setting gpu.clocks_configuration other))
        × (record (apply_clocks_command X gpu command) {
          clocks_configuration = gpu.clocks_configuration;
        }
            ≡ gpu)
  unfolding apply_clocks_command
  setting-apply_clocks_command gpu command = (
    λ other. setting-change_clocks gpu.clocks_configuration command.kind other command.value,
    refl,
  )

  abbrev pub setting_after_all : List SetClocksCommand → ClockspeedType → Option ℤ → Option ℤ
  setting_after_all [] other old = old
  setting_after_all (c ∷ cs) other old =
      setting_after_all cs other (setting_after c.kind other c.value old)

  -- A batch of commands leaves in each setting what its commands, one after the other, leave there:
  -- the last one about the setting, or the last reset, decides.
  pub setting-apply_clocks_commands :
      (gpu : Gpu X) (commands : List SetClocksCommand) (other : ClockspeedType)
      → setting (apply_clocks_commands X gpu commands).clocks_configuration other
        ≡ setting_after_all commands other (setting gpu.clocks_configuration other)
  unfolding apply_clocks_commands
  setting-apply_clocks_commands gpu [] other = refl
  setting-apply_clocks_commands gpu (c ∷ cs) other =
      rw (← (setting-apply_clocks_command gpu c).0 other)
        (setting-apply_clocks_commands (apply_clocks_command X gpu c) cs other)

  -- After a reset no clocks are in use: the assertion that follows it in the code holds.
  pub reset_unused :
      (gpu : Gpu X) (value : Option ℤ)
      → is_core_clocks_used X (apply_clocks_command X gpu (record { kind = reset; value = value }))
        ≡ false
  unfolding is_core_clocks_used apply_clocks_command change_clocks
  reset_unused gpu value = rw (X.iter-new {K = ℕ} {V = ℤ})
