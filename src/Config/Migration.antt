-- ===== src/Config/Migration.antt =====
-- `Config::migrate_versions` of lact-daemon/src/config.rs.
pub mod Effect
use yagc.Common.{ℕ, zero, suc, ◌+◌, ◌%◌, ◌^◌, Option, none, String, nat_beq, if◌then◌else◌}
use text.Mathlib.Text.{starts_with}
use yagc.Crates.{Crates}
use yagc.Config.{ClocksConfiguration, Gpu, Profile, Config}

-- lact-daemon/src/server/gpu_controller.rs
abbrev pub vendor_nvidia : String
vendor_nvidia = "10DE"

-- How the loop ends: by its `break`, by `unreachable!()`, or, in the model, without fuel.
pub data Migrated {ℓ} (A : Type ℓ) : Type ℓ where
  finished : A → Migrated A
  panicked out_of_fuel : Migrated A

module _ (X : Crates) where
  unfoldable pub clear_memory_clocks : ClocksConfiguration X → ClocksConfiguration X
  clear_memory_clocks clocks = record clocks { max_memory_clock = none; min_memory_clock = none }

  unfoldable pub clear_max_clocks : ClocksConfiguration X → ClocksConfiguration X
  clear_max_clocks clocks = record clocks { max_core_clock = none; max_memory_clock = none }

  module _ (clear : ClocksConfiguration X → ClocksConfiguration X) where
    unfoldable pub migrate_gpu : String → Gpu X → Gpu X
    migrate_gpu id gpu =
        if starts_with id vendor_nvidia
        then record gpu { clocks_configuration = clear gpu.clocks_configuration }
        else gpu

    -- The two nested loops of one arm: over the GPUs, and over those of every profile.
    unfoldable pub migrate_gpus : Config X → Config X
    unfolding migrate_gpu
    migrate_gpus c = record c {
      gpus = X.update_values migrate_gpu c.gpus;
      profiles =
          X.update_values (λ _ p. record p { gpus = X.update_values migrate_gpu p.gpus })
            c.profiles;
    }

  -- `self.version` is a `u64`.
  unfoldable pub migrate_loop : ℕ → Config X → Migrated (Config X)
  unfolding migrate_gpus clear_memory_clocks clear_max_clocks
  migrate_loop zero c = out_of_fuel
  migrate_loop (suc fuel) c =
      let next_version = (c.version + 1) % 2 ^ 64 in
      let first =
        migrate_loop fuel
          (record (migrate_gpus clear_memory_clocks c) { version = next_version }) in
      let second =
        migrate_loop fuel (record (migrate_gpus clear_max_clocks c) { version = next_version }) in
      if nat_beq next_version 0
      then panicked
      else if nat_beq next_version 1
      then first
      else if nat_beq next_version 2
      then second
      else finished c

  -- There are two migrations, and one more round to end.
  unfoldable pub migrate_versions : Config X → Migrated (Config X)
  unfolding migrate_loop
  migrate_versions c = migrate_loop 3 c
