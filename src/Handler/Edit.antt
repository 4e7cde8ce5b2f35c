-- ===== src/Handler/Edit.antt =====
-- Editing a GPU's configuration: `edit_gpu_config`, `wait_config_confirm` with the task that it
-- spawns, and `confirm_pending_config` of lact-daemon/src/server/handler.rs. The new settings go to
-- the hardware at once, and to the configuration only when they are confirmed.
pub mod Outcomes
pub mod Pending
pub mod Protocol
pub mod Race
pub mod Tasks
use yagc.Common.{
  ℕ, suc, Bool, true, false, Option, none, some, List, [], ◌∷◌, ◌++◌, String, ◌==◌, string_eq,
  nat_eq, Result, ok, err, Error, if◌then◌else◌, is_some, unwrap_or, unconfirmed_change_pending,
  no_pending_changes, could_not_confirm,
}
use yagc.Common.Exec.{Exec, pure, raise, lift, gets, modify, logged, ◌>>=◌, ◌>>◌}
use yagc.Common.Members.{member}
use yagc.Common.Entries
use yagc.Crates.{Crates}
use yagc.Config.{Gpu, default_gpu, Config}
use yagc.Config.Profiles.{gpus, with_gpus}
use yagc.Handler.{
  ConfirmCommand, confirm, revert, Env, Signal, waiting, dropped, sent, ConfirmTask, Handler,
  Action, on_hardware, controller_by_id, save,
}

abbrev pub on_drop : Signal → Signal
on_drop waiting = dropped
on_drop dropped = dropped
on_drop (sent command) = sent command

-- What wakes a waiting task: its timer, or its channel.
pub data Wake : Type 0 where
  timer channel : Wake

module _ (X : Crates) (E : Env X) where
  -- `*confirm_config_tx = tx`: the sender that stood there is dropped, which the task that listens
  -- to it sees unless it has a message already.
  unfoldable pub set_confirm_tx : Option ℕ → Handler X E → Handler X E
  set_confirm_tx tx h = elim h.confirm_config_tx [
    | none ↦ record h { confirm_config_tx = tx }
    | some old ↦ elim (Entries.lookup h.tasks old) [
      | none ↦ record h { confirm_config_tx = tx }
      | some t ↦ record h {
        confirm_config_tx = tx;
        tasks = Entries.insert h.tasks old (record t { signal = on_drop t.signal });
      }
    ]
  ]

  unfoldable pub wait_config_confirm : String → Gpu X → Gpu X → ℕ → Action X E (Unit {0})
  unfolding set_confirm_tx
  wait_config_confirm id previous_config new_config apply_timer h =
      let t = set_confirm_tx (some h.next_channel) h in
      (
        ok tt,
        record t {
          next_channel = suc t.next_channel;
          tasks = Entries.insert t.tasks t.next_channel (record {
            id = id;
            previous_config = previous_config;
            new_config = new_config;
            apply_timer = apply_timer;
            signal = waiting;
          });
        },
      )

  -- After the settings were sent to the GPU: on an error the previous ones are sent again, and the
  -- error is returned whatever becomes of that.
  unfoldable pub after_apply : String → Gpu X → Gpu X → ℕ → Result (Unit {0}) → Action X E ℕ
  unfolding wait_config_confirm
  after_apply id gpu_config new_config apply_timer (ok _) = do
    wait_config_confirm id gpu_config new_config apply_timer
    pure apply_timer
  after_apply id gpu_config new_config apply_timer (err apply_err) = do
    logged (on_hardware X E (E.apply_config id gpu_config))
    raise apply_err

  unfoldable pub edit_gpu_config : String → (Gpu X → Gpu X) → Action X E ℕ
  unfolding after_apply controller_by_id
  edit_gpu_config id f h =
      if is_some h.confirm_config_tx
      then (err unconfirmed_change_pending, h)
      else (do
        m ← lift (gpus X h.config)
        let gpu_config = unwrap_or (X.get m id) (default_gpu X)
        let new_config = f gpu_config
        controller_by_id X E id
        applied ← λ s.
            let (r, hw) = E.apply_config id new_config s.hardware in
            (ok r, record s { hardware = hw })
        after_apply id gpu_config new_config h.config.apply_settings_timer applied)
          h

  -- The confirmed settings go to the GPUs of the profile that is current now.
  unfoldable pub store_config : String → Gpu X → Handler X E → Handler X E
  store_config id new_config h = elim (gpus X h.config) [
    | err e ↦ h
    | ok m ↦ elim (with_gpus X h.config (X.set_entry m id new_config)) [
      | err e ↦ h
      | ok c ↦ record h { config = c }
    ]
  ]

  unfoldable pub revert_config : ConfirmTask X → Handler X E → Handler X E
  revert_config t h = record h { hardware = (E.apply_config t.id t.previous_config h.hardware).1 }

  unfoldable pub confirm_config : ConfirmTask X → Handler X E → Handler X E
  unfolding store_config save
  confirm_config t h = (save X E (store_config t.id t.new_config h)).1

  -- The arm of `select!` that runs; a channel with no news is not ready.
  unfoldable pub resolve_task : Wake → Signal → ConfirmTask X → Handler X E → Option (Handler X E)
  unfolding revert_config confirm_config
  resolve_task timer signal t h = some (revert_config t h)
  resolve_task channel waiting t h = none
  resolve_task channel (sent confirm) t h = some (confirm_config t h)
  resolve_task channel (sent revert) t h = some (revert_config t h)
  resolve_task channel dropped t h = some (revert_config t h)

  -- A task runs to its end. It panics if its controller is gone, and leaves the sender there;
  -- otherwise it ends by clearing whichever sender is there.
  unfoldable pub finish_task : Handler X E → Option (Handler X E) → Handler X E
  unfolding set_confirm_tx
  finish_task h none = h
  finish_task h (some done) = set_confirm_tx none done

  unfoldable pub wake_task : ℕ → Wake → Handler X E → Handler X E
  unfolding resolve_task finish_task
  wake_task ch wake h = elim (Entries.lookup h.tasks ch) [
    | none ↦ h
    | some t ↦
        let ended = record h { tasks = Entries.remove h.tasks ch } in
        if member h.gpu_controllers t.id
        then finish_task h (resolve_task wake t.signal t ended)
        else ended
  ]

  unfoldable pub confirm_pending_config : ConfirmCommand → Action X E (Unit {0})
  confirm_pending_config command h = elim h.confirm_config_tx [
    | none ↦ (err no_pending_changes, h)
    | some ch ↦
        let taken = record h { confirm_config_tx = none } in
        elim (Entries.lookup h.tasks ch) [
          | none ↦ (err could_not_confirm, taken)
          | some t ↦ (
            ok tt,
            record taken { tasks = Entries.insert h.tasks ch (record t { signal = sent command }) },
          )
        ]
  ]
