-- ===== src/Handler/Requests/Runs.antt =====
-- The invariant under the requests that change a GPU's settings and under the end of a pending
-- change, and so after every run of the daemon.
use yagc.Common.{
  ℕ, Bool, true, false, Option, inl, inr, List, [], ◌∷◌, String, string_eq, nat_eq, Result, ok,
  arith, if◌then◌else◌, Option-cases,
}
use yagc.Common.Exec.{Exec, ◌>>=◌, ◌>>◌, pure, lift, modify}
use yagc.Common.Triples.{Preserves, bind-Preserves}
use yagc.Crates.{Crates}
use yagc.Rules.{ProfileRule}
use yagc.Config.{Gpu, FanControlSettings, default_pmfw_options}
use yagc.Config.Clocks.{SetClocksCommand, apply_clocks_command, apply_clocks_commands}
use yagc.Handler.{Env, Handler, Action, controller_by_id, on_hardware}
use yagc.Handler.Edit.{
  edit_gpu_config, wake_task, Wake, resolve_task, finish_task, set_confirm_tx, store_config,
  revert_config, confirm_config,
}
use yagc.Handler.Edit
use yagc.Handler.Settings
use yagc.Handler.Settings.{FanOptions}
use yagc.Handler.Switch
use yagc.Handler.Requests.{
  Request, Response, handle_request, Event, request, wakes, step, run, answer,
}
use yagc.Handler.Requests
use yagc.Handler.Requests.Invariants.{
  IsSound, edit_gpu_config-IsSound, profile_op-IsSound, set_profile-IsSound, create_profile-IsSound,
  delete_profile-IsSound, move_profile-IsSound, set_profile_rule-IsSound, reset_config-IsSound,
}
use yagc.Handler.Requests.Stores.{
  wake_task-IsSound, confirm_pending_config-IsSound, entry_or_default-IsSound,
}

module _ (X : Crates) (E : Env X) where
  hardware_op-IsSound :
      {A : Type 0} (m : Exec E.Hardware A) → Preserves (IsSound X E) (on_hardware X E m)
  hardware_op-IsSound m = profile_op-IsSound X E (on_hardware X E m) (λ h. ground arith) (λ h v. v)

  controller_by_id-IsSound : (id : String) → Preserves (IsSound X E) (controller_by_id X E id)
  unfolding controller_by_id
  controller_by_id-IsSound id =
      profile_op-IsSound X E (controller_by_id X E id) (λ h. ground arith) (λ h v. ground arith)

  lift-IsSound : {A : Type 0} (r : Result A) → Preserves (IsSound X E) (lift r)
  lift-IsSound r h s = s

  reset_hardware-IsSound :
      (id : String)
      → Preserves
          (IsSound X E)
          (modify (λ h. record h { hardware = E.reset_pmfw_settings id h.hardware }))
  reset_hardware-IsSound id =
      profile_op-IsSound X E
        (modify (λ h. record h { hardware = E.reset_pmfw_settings id h.hardware }))
        (λ h. ground arith) (λ h v. v)

  set_fan_control-IsSound :
      (opts : FanOptions) → Preserves (IsSound X E) (Settings.set_fan_control X E opts)
  unfolding Settings.set_fan_control
  set_fan_control-IsSound opts =
      bind-Preserves {A = Gpu X} {B = ℕ} (IsSound X E) (Settings.entry_or_default X E opts.id)
        (λ g. lift (Settings.fan_settings opts opts.mode g.fan_control_settings) >>= edit)
        (entry_or_default-IsSound X E opts.id)
        λ g.
          bind-Preserves (IsSound X E)
            (lift (Settings.fan_settings opts opts.mode g.fan_control_settings)) edit
            (lift-IsSound (Settings.fan_settings opts opts.mode g.fan_control_settings))
            λ settings.
              edit_gpu_config-IsSound X E opts.id (Settings.with_fan_settings X opts settings)
    where
      edit : Option FanControlSettings → Action X E ℕ
      edit settings = edit_gpu_config X E opts.id (Settings.with_fan_settings X opts settings)

  reset_pmfw-IsSound : (id : String) → Preserves (IsSound X E) (Settings.reset_pmfw X E id)
  unfolding Settings.reset_pmfw
  reset_pmfw-IsSound id =
      bind-Preserves {A = Unit {0}} {B = ℕ} (IsSound X E) (controller_by_id X E id)
        (λ _. reset >>= λ _. edit) (controller_by_id-IsSound id)
        λ _.
          bind-Preserves {A = Unit {0}} {B = ℕ} (IsSound X E) reset (λ _. edit)
            (reset_hardware-IsSound id) λ _. edit_gpu_config-IsSound X E id clear_pmfw
    where
      reset : Action X E (Unit {0})
      reset h = (ok tt, record h { hardware = E.reset_pmfw_settings id h.hardware })

      clear_pmfw : Gpu X → Gpu X
      clear_pmfw gpu = record gpu { pmfw_options = default_pmfw_options }

      edit : Action X E ℕ
      edit = edit_gpu_config X E id clear_pmfw

  cleanup_for-IsSound :
      (b : Bool) (id : String)
      → Preserves (IsSound X E) (
          if b then (controller_by_id X E id >> on_hardware X E (E.cleanup_clocks id)) else pure tt)
  cleanup_for-IsSound true id =
      bind-Preserves {A = Unit {0}} {B = Unit {0}} (IsSound X E) (controller_by_id X E id)
        (λ _. on_hardware X E (E.cleanup_clocks id)) (controller_by_id-IsSound id)
        λ _. hardware_op-IsSound (E.cleanup_clocks id)
  cleanup_for-IsSound false id = λ h s. s

  set_clocks_value-IsSound :
      (id : String) (command : SetClocksCommand)
      → Preserves (IsSound X E) (Settings.set_clocks_value X E id command)
  unfolding Settings.set_clocks_value
  set_clocks_value-IsSound id command =
      bind-Preserves {A = Unit {0}} {B = ℕ} (IsSound X E)
        (if Settings.is_reset command.kind
          then (controller_by_id X E id >> on_hardware X E (E.cleanup_clocks id))
          else pure tt)
        (λ _. edit_gpu_config X E id (λ gpu. apply_clocks_command X gpu command))
        (cleanup_for-IsSound (Settings.is_reset command.kind) id)
        λ _. edit_gpu_config-IsSound X E id (λ gpu. apply_clocks_command X gpu command)

  evaluate_profile_rule-IsSound :
      (rule : ProfileRule) → Preserves (IsSound X E) (Switch.evaluate_profile_rule X E rule)
  unfolding Switch.evaluate_profile_rule
  evaluate_profile_rule-IsSound rule h s = elim (Option-cases h.profile_watcher_state) [
    | inl e ↦ rw (e, Switch.evaluate_profile_rule) s
    | inr (w, e) ↦ rw (e, Switch.evaluate_profile_rule) s
  ]

  answer-IsSound :
      {A : Type 0} (f : A → Response X) (m : Action X E A)
      → Preserves (IsSound X E) m
      → Preserves (IsSound X E) (answer X E f m)
  answer-IsSound f m k = bind-Preserves (IsSound X E) m (λ a. pure (f a)) k (λ a h s. s)

  handle_request-IsSound : (r : Request X) → Preserves (IsSound X E) (handle_request X E r)
  unfolding handle_request Settings.set_power_cap Settings.set_performance_level
      Settings.batch_set_clocks_value Settings.set_power_profile_mode
      Settings.set_enabled_power_states
  handle_request-IsSound (Requests.list_profiles include_state) = λ h s. s
  handle_request-IsSound (Requests.set_fan_control opts) =
      answer-IsSound Requests.time (Settings.set_fan_control X E opts)
        (set_fan_control-IsSound opts)
  handle_request-IsSound (Requests.reset_pmfw id) =
      answer-IsSound Requests.time (Settings.reset_pmfw X E id) (reset_pmfw-IsSound id)
  handle_request-IsSound (Requests.set_clocks_value id command) =
      answer-IsSound Requests.time (Settings.set_clocks_value X E id command)
        (set_clocks_value-IsSound id command)
  handle_request-IsSound (Requests.set_power_cap id power_cap) =
      answer-IsSound Requests.time (Settings.set_power_cap X E id power_cap)
        (edit_gpu_config-IsSound X E id (λ gpu. record gpu { power_cap = power_cap }))
  handle_request-IsSound (Requests.set_performance_level id level) =
      answer-IsSound Requests.time (Settings.set_performance_level X E id level)
        (edit_gpu_config-IsSound X E id (Settings.with_performance_level X E level))
  handle_request-IsSound (Requests.batch_set_clocks_value id commands) =
      answer-IsSound Requests.time (Settings.batch_set_clocks_value X E id commands)
        (edit_gpu_config-IsSound X E id (λ gpu. apply_clocks_commands X gpu commands))
  handle_request-IsSound (Requests.set_power_profile_mode id index heuristics) =
      answer-IsSound Requests.time (Settings.set_power_profile_mode X E id index heuristics) (
        edit_gpu_config-IsSound X E id (λ gpu. record gpu {
          power_profile_mode_index = index;
          custom_power_profile_mode_hueristics = heuristics;
        }))
  handle_request-IsSound (Requests.set_enabled_power_states id kind states) =
      answer-IsSound Requests.time (Settings.set_enabled_power_states X E id kind states)
        (edit_gpu_config-IsSound X E id (Settings.with_power_states X E kind states))
  handle_request-IsSound (Requests.set_profile name auto_switch) =
      answer-IsSound (λ _. Requests.done) (Switch.set_profile X E name auto_switch)
        (set_profile-IsSound X E name auto_switch)
  handle_request-IsSound (Requests.create_profile name base) =
      answer-IsSound (λ _. Requests.done) (Switch.create_profile X E name base)
        (create_profile-IsSound X E name base)
  handle_request-IsSound (Requests.delete_profile name) =
      answer-IsSound (λ _. Requests.done) (Switch.delete_profile X E name)
        (delete_profile-IsSound X E name)
  handle_request-IsSound (Requests.move_profile name new_position) =
      answer-IsSound (λ _. Requests.done) (Switch.move_profile X E name new_position)
        (move_profile-IsSound X E name new_position)
  handle_request-IsSound (Requests.set_profile_rule name rule) =
      answer-IsSound (λ _. Requests.done) (Switch.set_profile_rule X E name rule)
        (set_profile_rule-IsSound X E name rule)
  handle_request-IsSound (Requests.evaluate_profile_rule rule) =
      answer-IsSound Requests.decision (Switch.evaluate_profile_rule X E rule)
        (evaluate_profile_rule-IsSound rule)
  handle_request-IsSound (Requests.confirm_pending_config command) =
      answer-IsSound (λ _. Requests.done) (Edit.confirm_pending_config X E command)
        (confirm_pending_config-IsSound X E command)
  handle_request-IsSound Requests.reset_config =
      answer-IsSound (λ _. Requests.done) (Switch.reset_config X E) (reset_config-IsSound X E)

  -- From a sound state every run of the daemon, with whatever requests, errors of controllers and
  -- of the file, and ends of pending changes, leads to a sound state: the current profile exists,
  -- and a task waits for a confirmation exactly if the handler holds the sender of its channel, so
  -- that at most one change is pending.
  pub run-IsSound :
      (evs : List (Event X E)) (h : Handler X E) → IsSound X E h → IsSound X E (run X E evs h)
  unfolding run
  run-IsSound [] h s = s
  run-IsSound (request r ∷ evs) h s = run-IsSound evs _ (handle_request-IsSound r h s)
  run-IsSound (wakes ch wake ∷ evs) h s = run-IsSound evs _ (wake_task-IsSound X E ch wake h s)
