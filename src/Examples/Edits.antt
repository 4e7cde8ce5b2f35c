-- ===== src/Examples/Edits.antt =====
-- Edits of the example daemon's GPU, to their ends.
use yagc.Common.{
  ◌≡◌, refl, false, none, some, ◌⊎◌, List, [], ◌∷◌, String, nat_eq, string_eq, ok, err, arith,
  controller_failed, no_pending_changes, unwrap_or,
}
use yagc.Common.Entries.{lookup, insert, remove}
use yagc.Common.Members.{member}
use yagc.Config.{Gpu, default_gpu, F64}
use yagc.Config.Profiles.{gpus, gpus_of, with_gpus}
use yagc.Config.Profiles.Active.{IsWritten}
use yagc.Handler.{confirm, waiting, sent, ConfirmTask, Handler}
use yagc.Handler.Settings
use yagc.Handler.Edit.{edit_gpu_config, set_confirm_tx, wake_task, channel, confirm_pending_config}
use yagc.Handler.Edit.Outcomes.{
  OnlyPending, applied, edit_gpu_config-OnlyPending, edit_gpu_config-err,
}
use yagc.Handler.Edit.Protocol.{
  ended, user_reverts, edit_gpu_config-ended, edit_gpu_config-confirmed,
  confirm_pending_config_accepted, previous,
}
use yagc.Handler.Edit.Race.{wake_task-drops_newer}
use yagc.Handler.Requests.{Event, request, wakes, run, set_power_cap, delete_profile, set_profile}
use yagc.Handler.Requests
use yagc.Handler.Requests.Invariants.{IsSound}
use yagc.Handler.Requests.Runs.{run-IsSound}
use yagc.Handler.Switch.{set_current_profile}
use yagc.Handler.Switch.Midway.{confirmed_after_switch}
use yagc.Examples.{crates, env, start}

abbrev capped : F64 → Gpu crates → Gpu crates
capped power_cap gpu = record gpu { power_cap = some power_cap }

start-IsSound : IsSound crates env start
unfolding lookup
start-IsSound = record {
  pending = record { one = λ ch. refl; fresh = λ ch h. cc; controlled = λ ch. refl };
  current = refl;
}

abbrev session : List (Event crates env)
session =
    request (Requests.set_power_cap "gpu0" (some 120))
    ∷ request (Requests.set_profile (some "quiet") false)
    ∷ request (Requests.confirm_pending_config confirm)
    ∷ wakes 0 channel
    ∷ request (Requests.delete_profile "quiet")
    ∷ []

run-IsSound_example : IsSound crates env (run crates env session start)
run-IsSound_example = run-IsSound crates env session start start-IsSound

edit_gpu_config-OnlyPending_example :
    OnlyPending crates env start (edit_gpu_config crates env "gpu0" (capped 120) start).1
edit_gpu_config-OnlyPending_example =
    edit_gpu_config-OnlyPending crates env "gpu0" (capped 120) start

edited : (edit_gpu_config crates env "gpu0" (capped 120) start).0 ≡ ok 5
unfolding edit_gpu_config gpus member lookup
edited = refl

refused : (edit_gpu_config crates env "gpu0" (capped 0) start).0 ≡ err controller_failed
unfolding edit_gpu_config gpus member lookup
refused = refl

edit_gpu_config-err_example :
    ((edit_gpu_config crates env "gpu0" (capped 0) start).1 ≡ start)
    ⊎ ((m : crates.IndexMap String (Gpu crates)) × (gpus crates start.config ≡ ok m)
        × ((env.apply_config "gpu0"
              (capped 0 (unwrap_or (crates.get m "gpu0") (default_gpu crates)))
              start.hardware).0
            ≡ err controller_failed)
        × ((edit_gpu_config crates env "gpu0" (capped 0) start).1 ≡ record start {
          hardware =
              applied crates env "gpu0" (unwrap_or (crates.get m "gpu0") (default_gpu crates)) (
                applied crates env "gpu0"
                  (capped 0 (unwrap_or (crates.get m "gpu0") (default_gpu crates)))
                  start.hardware);
        }))
edit_gpu_config-err_example = edit_gpu_config-err crates env "gpu0" (capped 0) start refused

confirm_pending_config_accepted_example :
    (confirm_pending_config crates env confirm start).0 ≡ err no_pending_changes
confirm_pending_config_accepted_example =
    confirm_pending_config_accepted crates env start confirm start-IsSound.pending

edit_gpu_config-ended_example :
    let h' =
      ended crates env (user_reverts) 0 (edit_gpu_config crates env "gpu0" (capped 120) start).1 in
    (m : crates.IndexMap String (Gpu crates)) × (gpus crates start.config ≡ ok m)
    × (h'.config ≡ start.config)
    × (h'.disk ≡ start.disk)
    × (h'.hardware
        ≡ applied crates env "gpu0"
            (previous crates env "gpu0" m)
            (applied crates env "gpu0" (capped 120 (previous crates env "gpu0" m)) start.hardware))
    × (h'.confirm_config_tx ≡ none)
edit_gpu_config-ended_example =
    edit_gpu_config-ended crates env "gpu0" (capped 120) start user_reverts edited

edit_gpu_config-confirmed_example :
    let h' =
      wake_task crates env 0 channel
        (confirm_pending_config crates env confirm
          (edit_gpu_config crates env "gpu0" (capped 120) start).1).1 in
    (m : crates.IndexMap String (Gpu crates)) × (gpus crates start.config ≡ ok m)
    × IsWritten crates start.config h'.config start.config.current_profile
        (crates.set_entry m "gpu0" (capped 120 (previous crates env "gpu0" m)))
    × (h'.disk ≡ (env.write_config h'.config start.disk).1)
    × (h'.hardware
        ≡ applied crates env "gpu0" (capped 120 (previous crates env "gpu0" m)) start.hardware)
    × (h'.confirm_config_tx ≡ none)
edit_gpu_config-confirmed_example =
    edit_gpu_config-confirmed crates env "gpu0" (capped 120) start edited

switched :
    (set_current_profile crates env
      (some "quiet")
      (edit_gpu_config crates env "gpu0" (capped 120) start).1).0
    ≡ ok tt
unfolding edit_gpu_config set_current_profile gpus member lookup
switched = refl

confirmed_after_switch_example :
    let h₂ =
      (set_current_profile crates env
        (some "quiet")
        (edit_gpu_config crates env "gpu0" (capped 120) start).1).1 in
    let h' = wake_task crates env 0 channel (confirm_pending_config crates env confirm h₂).1 in
    (m : crates.IndexMap String (Gpu crates)) × (n : crates.IndexMap String (Gpu crates)) × (gpus
        crates start.config
      ≡ ok m)
    × (gpus_of crates start.config (some "quiet") ≡ ok n)
    × (gpus_of crates h'.config (some "quiet")
        ≡ ok (crates.set_entry n "gpu0" (capped 120 (previous crates env "gpu0" m))))
    × (gpus crates start.config ≡ gpus_of crates h'.config none)
confirmed_after_switch_example =
    confirmed_after_switch crates env "gpu0" "quiet" (capped 120) start edited switched refl

-- A change that was confirmed, and a newer one that waits, both of the one GPU.
abbrev old_task : ConfirmTask crates
old_task = record {
  id = "gpu0";
  previous_config = default_gpu crates;
  new_config = capped 100 (default_gpu crates);
  apply_timer = 5;
  signal = sent confirm;
}

abbrev new_task : ConfirmTask crates
new_task = record {
  id = "gpu0";
  previous_config = capped 100 (default_gpu crates);
  new_config = capped 120 (default_gpu crates);
  apply_timer = 5;
  signal = waiting;
}

abbrev overlapping : Handler crates env
overlapping = record start {
  tasks = (0, old_task) ∷ (1, new_task) ∷ [];
  confirm_config_tx = some 1;
  next_channel = 2;
}

wake_task-drops_newer_example :
    let h' = wake_task crates env 0 channel overlapping in
    ((confirm_pending_config crates env confirm h').0 ≡ err no_pending_changes)
    × ((wake_task crates env 1 channel h').hardware
        ≡ applied crates env "gpu0" (capped 100 (default_gpu crates)) h'.hardware)
unfolding lookup member
wake_task-drops_newer_example =
    wake_task-drops_newer crates env overlapping 0 1 old_task new_task confirm (omega arith) refl
      refl refl refl refl refl refl

-- The state of the race is reached by requests: an edit, its confirmation, and another edit before
-- the first one's task has run. The second edit was accepted, and cannot be confirmed any more.
abbrev racing : List (Event crates env)
racing =
    request (Requests.set_power_cap "gpu0" (some 100))
    ∷ request (Requests.confirm_pending_config confirm)
    ∷ request (Requests.set_power_cap "gpu0" (some 120))
    ∷ wakes 0 channel
    ∷ []

race_loses_edit :
    (confirm_pending_config crates env confirm (run crates env racing start)).0
    ≡ err no_pending_changes
unfolding run Settings.set_power_cap edit_gpu_config confirm_pending_config wake_task gpus member
    lookup insert remove set_confirm_tx with_gpus
race_loses_edit = refl
