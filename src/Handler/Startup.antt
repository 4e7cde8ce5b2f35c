-- ===== src/Handler/Startup.antt =====
-- How the daemon starts: `Config::load_or_create` of lact-daemon/src/config.rs, and the handler that
-- `Handler::with_base_path` of lact-daemon/src/server/handler.rs makes once the GPUs were found.
use yagc.Common.{
  ◌≡◌, true, Option, none, some, List, [], String, nat_eq, string_eq, arith, Result, ok, err,
  if◌then◌else◌, is_some,
}
use yagc.Common.Entries.{lookup}
use yagc.Common.Exec.{Exec}
use yagc.Crates.{Crates}
use yagc.Config.{Config, default_config}
use yagc.Handler.{Env, Handler, apply_current_config, start_profile_watcher}
use yagc.Handler.Edit.Pending.{IsPending}
use yagc.Handler.Switch.Active.{has_current}
use yagc.Handler.Requests.Invariants.{IsSound}

module _ (X : Crates) (E : Env X) where
  -- What `Config::load` found is given: an error, no file, or a configuration.
  unfoldable pub load_or_create : Result (Option (Config X)) → Exec E.Disk (Config X)
  load_or_create (err e) disk = (err e, disk)
  load_or_create (ok (some config)) disk = (ok config, disk)
  load_or_create (ok none) disk =
      let (r, written) = E.write_config (default_config X) disk in
      (elim r [ ok _ ↦ ok (default_config X) | err e ↦ err e ], written)

  abbrev pub empty_handler : Config X → List String → E.Hardware → E.Disk → Handler X E
  empty_handler config controllers hardware disk = record {
    config = config;
    gpu_controllers = controllers;
    confirm_config_tx = none;
    tasks = [];
    next_channel = 0;
    profile_watcher_tx = none;
    next_watcher = 0;
    watcher_commands = [];
    profile_watcher_state = none;
    hardware = hardware;
    disk = disk;
  }

  -- An error of `apply_current_config` is logged.
  unfoldable pub with_base_path : Config X → List String → E.Hardware → E.Disk → Handler X E
  unfolding apply_current_config start_profile_watcher
  with_base_path config controllers hardware disk =
      let h = (apply_current_config X E (empty_handler config controllers hardware disk)).1 in
      if h.config.auto_switch_profiles then start_profile_watcher X E h else h

  idle-IsPending : (h : Handler X E) → h.tasks ≡ [] → h.confirm_config_tx ≡ none → IsPending X E h
  unfolding lookup
  idle-IsPending h empty idle = record {
    one = λ ch. rw (empty, idle) (ground arith);
    fresh = λ ch. rw (empty) (ground arith);
    controlled = λ ch. rw (empty) (ground arith);
  }

  -- What the start leaves: nothing pending, and the configuration and its file as they were.
  record IsStarted (config : Config X) (disk : E.Disk) (h : Handler X E) : Type 0 where
    idle : h.confirm_config_tx ≡ none
    empty : h.tasks ≡ []
    config_kept : h.config ≡ config
    disk_kept : h.disk ≡ disk
    watcher : is_some h.profile_watcher_tx ≡ config.auto_switch_profiles

  with_base_path-IsStarted :
      (config : Config X) (controllers : List String) (hardware : E.Hardware) (disk : E.Disk)
      → IsStarted config disk (with_base_path config controllers hardware disk)
  unfolding with_base_path
  with_base_path-IsStarted config controllers hardware disk = ground arith

  -- The daemon starts in a sound state if the configuration's current profile exists, with the
  -- configuration and its file as they were, and with a watcher exactly if profiles switch
  -- automatically.
  pub with_base_path-IsSound :
      (config : Config X) (controllers : List String) (hardware : E.Hardware) (disk : E.Disk)
      → has_current X E config ≡ true
      → let h = with_base_path config controllers hardware disk in
        IsSound X E h
        × (h.config ≡ config)
        × (h.disk ≡ disk)
        × (is_some h.profile_watcher_tx ≡ config.auto_switch_profiles)
  with_base_path-IsSound config controllers hardware disk v =
      let s = with_base_path-IsStarted config controllers hardware disk in
      let h = with_base_path config controllers hardware disk in
      (
        record { pending = idle-IsPending h s.empty s.idle; current = rw (s.config_kept) v },
        s.config_kept,
        s.disk_kept,
        s.watcher,
      )
