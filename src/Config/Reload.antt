-- ===== src/Config/Reload.antt =====
-- `start_watcher` of lact-daemon/src/config.rs: when the configuration is loaded again after its file
-- changed. Events come with their times in milliseconds.
pub mod Quiet
use yagc.Common.{
  ℕ, ◌+◌, ◌-◌, Bool, true, false, Option, none, some, List, [], ◌∷◌, ◌++◌, ltb, leb, Result, ok,
  err, if◌then◌else◌,
}

-- `notify::EventKind`, as far as it is told apart
pub data EventKind : Type 0 where
  modify_event create_event remove_event other_event : EventKind

-- `SELF_CONFIG_EDIT_PERIOD_MILLIS` and `CONFIG_RELOAD_INTERVAL_MILLIS`
abbrev pub self_config_edit_period : ℕ
self_config_edit_period = 1000

abbrev pub config_reload_interval : ℕ
config_reload_interval = 50

unfoldable pub is_change : Result EventKind → Bool
is_change (ok modify_event) = true
is_change (ok create_event) = true
is_change (ok remove_event) = true
is_change (ok other_event) = false
is_change (err e) = false

-- Whether the timer has run out at a time, and what is left of it; without a timer the watcher waits
-- for an event.
unfoldable pub fired : Option ℕ → ℕ → List ℕ
fired none now = []
fired (some deadline) now = if leb deadline now then deadline ∷ [] else []

unfoldable pub pending : Option ℕ → ℕ → Option ℕ
pending none now = none
pending (some deadline) now = if leb deadline now then none else some deadline

-- A change sets the timer, unless none runs and the daemon itself has just saved the file.
unfoldable pub set_timer : ℕ → ℕ → Option ℕ → Result EventKind → Option ℕ
unfolding is_change
set_timer last_saved now none event =
    if is_change event
    then (if ltb (now - last_saved) self_config_edit_period
        then none
        else some (now + config_reload_interval))
    else none
set_timer last_saved now (some deadline) event =
    if is_change event then some (now + config_reload_interval) else some deadline

-- The times at which the configuration is loaded. The file was last saved by the daemon at
-- `saved now`, as seen at a time.
unfoldable pub reloads : (ℕ → ℕ) → Option ℕ → List (ℕ × Result EventKind) → List ℕ
unfolding fired pending set_timer
reloads saved none [] = []
reloads saved (some deadline) [] = deadline ∷ []
reloads saved timer ((now, event) ∷ events) =
    fired timer now ++ reloads saved (set_timer (saved now) now (pending timer now) event) events

-- What is sent to the handler: a configuration that could be loaded.
unfoldable pub sent : {C : Type 0} → (ℕ → Result (Option C)) → List ℕ → List C
sent load [] = []
sent load (now ∷ times) =
    let later = sent load times in
    elim (load now) [
      | err e ↦ later
      | ok found ↦ elim found [ none ↦ later | some config ↦ config ∷ later ]
    ]
