-- ===== src/Handler/Reload.antt =====
-- What the daemon loads while it runs: `listen_config_changes` and the start of `run` in
-- lact-daemon/src/lib.rs, and `reload_gpus` of lact-daemon/src/server/handler.rs, which waits until
-- no change is pending since the task of a pending change holds the lock.
use yagc.Common.{
  ◌≡◌, true, Option, none, some, List, String, nat_beq, Result, ok, err, string_eq, if◌then◌else◌,
  arith,
}
use yagc.Common.Exec.{Exec}
use yagc.Crates.{Crates}
use yagc.Config.{Config}
use yagc.Config.Migration.{Migrated, finished, panicked, out_of_fuel, migrate_versions}
use yagc.Handler.{Env, Handler, apply_current_config}
use yagc.Handler.Startup.{load_or_create}
use yagc.Handler.Switch.Active.{has_current}
use yagc.Handler.Edit.Pending.{KeepsTasks}
use yagc.Handler.Requests.Invariants.{IsSound, KeepsTasks-IsPending}

module _ (X : Crates) (E : Env X) where
  -- A new configuration is applied at once; it is not migrated.
  unfoldable pub reload_config : Config X → Handler X E → Handler X E
  unfolding apply_current_config
  reload_config new_config h = (apply_current_config X E (record h { config = new_config })).1

  unfoldable pub reload_gpus : Result (List String) → Handler X E → Handler X E
  unfolding apply_current_config
  reload_gpus (err e) h = h
  reload_gpus (ok new_controllers) h =
      (apply_current_config X E (record h { gpu_controllers = new_controllers })).1

  -- A migrated configuration is saved if its version changed.
  unfoldable pub save_migrated : Config X → Config X → Exec E.Disk (Config X)
  save_migrated original migrated disk =
      if nat_beq migrated.version original.version
      then (ok migrated, disk)
      else (let (r, written) = E.write_config migrated disk in
          (elim r [ ok _ ↦ ok migrated | err e ↦ err e ], written))

  -- `none` stands for the panic of the migration.
  unfoldable pub migrate_and_save :
      Config X → Migrated (Config X) → E.Disk → Option (Result (Config X) × E.Disk)
  unfolding save_migrated
  migrate_and_save config (finished migrated) disk = some (save_migrated config migrated disk)
  migrate_and_save config panicked disk = none
  migrate_and_save config out_of_fuel disk = none

  unfoldable pub load_and_migrate :
      Result (Option (Config X)) → E.Disk → Option (Result (Config X) × E.Disk)
  unfolding load_or_create migrate_and_save migrate_versions
  load_and_migrate found disk =
      let (loaded, created) = load_or_create X E found disk in
      elim loaded [
        | err e ↦ some (err e, created)
        | ok config ↦ migrate_and_save config (migrate_versions X config) created
      ]

  reload_config-KeepsTasks :
      (new_config : Config X) (h : Handler X E) → KeepsTasks X E h (reload_config new_config h)
  unfolding reload_config
  reload_config-KeepsTasks new_config h = ground arith

  config-reload_config :
      (new_config : Config X) (h : Handler X E) → (reload_config new_config h).config ≡ new_config
  unfolding reload_config
  config-reload_config new_config h = ground arith

  -- A reload keeps the handler sound if the new configuration's current profile exists.
  pub reload_config-IsSound :
      (new_config : Config X) (h : Handler X E)
      → IsSound X E h
      → has_current X E new_config ≡ true
      → IsSound X E (reload_config new_config h)
  unfolding reload_config
  reload_config-IsSound new_config h sound current = record {
    pending =
        KeepsTasks-IsPending X E h (reload_config new_config h)
          (reload_config-KeepsTasks new_config h) sound.pending;
    current = rw (config-reload_config new_config h) current;
  }
