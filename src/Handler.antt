-- ===== src/Handler.antt =====
-- The state of the request handler, lact-daemon/src/server/handler.rs, and what its methods share.
-- The GPU controllers (trait `GpuController`, lact-daemon/src/server/gpu_controller.rs) and the
-- configuration file are behind an interface: each call has a result and changes the hardware, or
-- the file, in a way that is left open.
pub mod Edit
pub mod Settings
pub mod Switch
pub mod Reload
pub mod Requests
pub mod Autoswitch
pub mod Startup
use yagc.Common.{
  ℕ, Bool, true, false, Option, none, some, List, [], ◌∷◌, ◌++◌, String, ◌==◌, string_eq, nat_eq,
  Result, ok, err, Error, if◌then◌else◌, suc, controller_not_found,
}
use yagc.Common.Exec.{Exec, pure, raise, lift, gets, modify, logged, ◌>>=◌, ◌>>◌}
use yagc.Common.Members.{member}
use yagc.Crates.{Crates}
use yagc.Watcher.{ProfileWatcherState}
use yagc.Config.{Gpu, default_gpu, Config}
use yagc.Config.Profiles.{gpus}

pub data ConfirmCommand : Type 0 where
  confirm revert : ConfirmCommand

pub data ProfileWatcherCommand : Type 0 where
  stop update : ProfileWatcherCommand

pub record Env (X : Crates) : Type 1 where
  pub Hardware : Type 0
  pub apply_config : String → Gpu X → Exec Hardware (Unit {0})
  pub cleanup_clocks : String → Exec Hardware (Unit {0})
  pub reset_pmfw_settings : String → Hardware → Hardware
  pub Disk : Type 0
  pub write_config : Config X → Exec Disk (Unit {0})

-- What the receiver of a oneshot channel will see: nothing yet, a command, or a dropped sender.
pub data Signal : Type 0 where
  waiting dropped : Signal
  sent : ConfirmCommand → Signal

module _ (X : Crates) where
  -- A task that `wait_config_confirm` has spawned, with its end of the channel.
  pub record ConfirmTask : Type 0 where
    pub id : String
    pub previous_config : Gpu X
    pub new_config : Gpu X
    pub apply_timer : ℕ
    pub signal : Signal

module _ (X : Crates) (E : Env X) where
  pub record Handler : Type 0 where
    pub config : Config X
    -- the keys of the map of controllers, in order
    pub gpu_controllers : List String
    -- the sender's end of a channel, named by a number
    pub confirm_config_tx : Option ℕ
    -- the tasks that wait for a confirmation, by the channel that each listens to
    pub tasks : List (ℕ × ConfirmTask X)
    pub next_channel : ℕ
    pub profile_watcher_tx : Option ℕ
    pub next_watcher : ℕ
    -- what was sent to which watcher, the latest first
    pub watcher_commands : List (ℕ × ProfileWatcherCommand)
    pub profile_watcher_state : Option (ProfileWatcherState X)
    pub hardware : E.Hardware
    pub disk : E.Disk

  abbrev pub Action : Type 0 → Type 0
  Action A = Exec Handler A

  -- A call of a controller.
  abbrev pub on_hardware : {A : Type 0} → Exec E.Hardware A → Action A
  on_hardware m h = let (r, hw) = m h.hardware in (r, record h { hardware = hw })

  unfoldable pub controller_by_id : String → Action (Unit {0})
  controller_by_id id h =
      if member h.gpu_controllers id then (ok tt, h) else (err (controller_not_found id), h)

  unfoldable pub save : Action (Unit {0})
  save h = let (r, d) = E.write_config h.config h.disk in (r, record h { disk = d })

  -- Each GPU's configuration goes to its controller; errors and GPUs that are absent are logged.
  unfoldable pub apply_all : List String → List (String × Gpu X) → E.Hardware → E.Hardware
  apply_all ids [] hw = hw
  apply_all ids ((id, gpu_config) ∷ rest) hw =
      apply_all ids rest (if member ids id then (E.apply_config id gpu_config hw).1 else hw)

  unfoldable pub apply_current_config : Action (Unit {0})
  unfolding apply_all
  apply_current_config = do
    h ← gets (λ h. h)
    m ← lift (gpus X h.config)
    modify (λ t. record t { hardware = apply_all t.gpu_controllers (X.iter m) t.hardware })

  -- `cleanup`: every controller is reset, and given the default configuration.
  unfoldable pub cleanup_all : Bool → List String → E.Hardware → E.Hardware
  cleanup_all disable_clocks_cleanup [] hw = hw
  cleanup_all disable_clocks_cleanup (id ∷ ids) hw =
      let cleaned = if disable_clocks_cleanup then hw else (E.cleanup_clocks id hw).1 in
      let reset = E.reset_pmfw_settings id cleaned in
      cleanup_all disable_clocks_cleanup ids (E.apply_config id (default_gpu X) reset).1

  unfoldable pub cleanup : Action (Unit {0})
  unfolding cleanup_all
  cleanup h = (
    ok tt,
    record h {
      hardware = cleanup_all h.config.daemon.disable_clocks_cleanup h.gpu_controllers h.hardware;
    },
  )

  -- A command to the watcher that runs; one that no longer listens is ignored.
  unfoldable pub tell_watcher : ProfileWatcherCommand → Handler → Handler
  tell_watcher command h = elim h.profile_watcher_tx [
    | none ↦ h
    | some w ↦ record h { watcher_commands = (w, command) ∷ h.watcher_commands }
  ]

  unfoldable pub stop_profile_watcher : Handler → Handler
  unfolding tell_watcher
  stop_profile_watcher h = record (tell_watcher stop h) { profile_watcher_tx = none }

  unfoldable pub start_profile_watcher : Handler → Handler
  unfolding stop_profile_watcher
  start_profile_watcher h =
      let t = stop_profile_watcher h in
      record t { profile_watcher_tx = some t.next_watcher; next_watcher = suc t.next_watcher }
