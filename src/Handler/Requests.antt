-- ===== src/Handler/Requests.antt =====
-- The requests that change something, as `handle_request` of lact-daemon/src/server.rs hands them
-- to the handler, and the daemon's life as a sequence of requests and of pending changes that end.
pub mod Invariants
pub mod Runs
pub mod Stores
use yagc.Common.{
  ℕ, ℤ, Bool, true, false, Option, none, some, List, [], ◌∷◌, String, Result, ok, err, Error,
}
use mathlib.Core.List.{map}
use yagc.Common.Exec.{Exec, pure, ◌>>=◌}
use yagc.Crates.{Crates}
use yagc.Watcher.{ProfileWatcherState}
use yagc.Rules.{ProfileRule}
use yagc.Config.{F64, Config, Profile}
use yagc.Config.Clocks.{SetClocksCommand}
use yagc.Handler.{ConfirmCommand, Env, Handler, Action}
use yagc.Handler.Edit
use yagc.Handler.Edit.{Wake}
use yagc.Handler.Settings
use yagc.Handler.Settings.{FanOptions}
use yagc.Handler.Switch
use yagc.Handler.Switch.{ProfileBase}

module _ (X : Crates) where
  pub data Request : Type 0 where
    set_fan_control : FanOptions → Request
    reset_pmfw : String → Request
    set_power_cap : String → Option F64 → Request
    set_performance_level : String → X.PerformanceLevel → Request
    set_clocks_value : String → SetClocksCommand → Request
    batch_set_clocks_value : String → List SetClocksCommand → Request
    set_power_profile_mode : String → Option ℕ → List (List (Option ℤ)) → Request
    set_enabled_power_states : String → X.PowerLevelKind → List ℕ → Request
    list_profiles : Bool → Request
    set_profile : Option String → Bool → Request
    create_profile : String → ProfileBase → Request
    delete_profile : String → Request
    move_profile : String → ℕ → Request
    evaluate_profile_rule : ProfileRule → Request
    set_profile_rule : String → Option ProfileRule → Request
    confirm_pending_config : ConfirmCommand → Request
    reset_config : Request

  pub record ProfilesInfo : Type 0 where
    pub profiles : List (String × Option ProfileRule)
    pub current_profile : Option String
    pub auto_switch : Bool
    pub watcher_state : Option (ProfileWatcherState X)

  pub data Response : Type 0 where
    done : Response
    -- the time for confirming a change
    time : ℕ → Response
    decision : Bool → Response
    profiles_info : ProfilesInfo → Response

module _ (X : Crates) (E : Env X) where
  unfoldable pub profiles_info_of : Bool → Handler X E → ProfilesInfo X
  profiles_info_of include_state h = record {
    profiles =
        map (λ (e : String × Profile X). let (name, p) = e in (name, p.rule))
          (X.iter h.config.profiles);
    current_profile = h.config.current_profile;
    auto_switch = h.config.auto_switch_profiles;
    watcher_state = elim include_state [ true ↦ h.profile_watcher_state | false ↦ none ];
  }

  abbrev pub answer : {A : Type 0} → (A → Response X) → Action X E A → Action X E (Response X)
  answer f m = do a ← m; pure (f a)

  unfoldable pub handle_request : Request X → Action X E (Response X)
  unfolding profiles_info_of
  handle_request (set_fan_control opts) = answer time (Settings.set_fan_control X E opts)
  handle_request (reset_pmfw id) = answer time (Settings.reset_pmfw X E id)
  handle_request (set_power_cap id cap) = answer time (Settings.set_power_cap X E id cap)
  handle_request (set_performance_level id level) =
      answer time (Settings.set_performance_level X E id level)
  handle_request (set_clocks_value id command) =
      answer time (Settings.set_clocks_value X E id command)
  handle_request (batch_set_clocks_value id commands) =
      answer time (Settings.batch_set_clocks_value X E id commands)
  handle_request (set_power_profile_mode id index custom_heuristics) =
      answer time (Settings.set_power_profile_mode X E id index custom_heuristics)
  handle_request (set_enabled_power_states id kind states) =
      answer time (Settings.set_enabled_power_states X E id kind states)
  handle_request (list_profiles include_state) =
      (λ h. (ok (profiles_info (profiles_info_of include_state h)), h))
  handle_request (set_profile name auto_switch) =
      answer (λ _. done) (Switch.set_profile X E name auto_switch)
  handle_request (create_profile name base) =
      answer (λ _. done) (Switch.create_profile X E name base)
  handle_request (delete_profile name) = answer (λ _. done) (Switch.delete_profile X E name)
  handle_request (move_profile name new_position) =
      answer (λ _. done) (Switch.move_profile X E name new_position)
  handle_request (evaluate_profile_rule rule) =
      answer decision (Switch.evaluate_profile_rule X E rule)
  handle_request (set_profile_rule name rule) =
      answer (λ _. done) (Switch.set_profile_rule X E name rule)
  handle_request (confirm_pending_config command) =
      answer (λ _. done) (Edit.confirm_pending_config X E command)
  handle_request reset_config = answer (λ _. done) (Switch.reset_config X E)

  -- A request arrives, or the task on a channel wakes.
  pub data Event : Type 0 where
    request : Request X → Event
    wakes : ℕ → Wake → Event

  unfoldable pub step : Event → Handler X E → Handler X E
  unfolding handle_request
  step (request r) h = (handle_request r h).1
  step (wakes ch wake) h = Edit.wake_task X E ch wake h

  unfoldable pub run : List Event → Handler X E → Handler X E
  unfolding step
  run [] h = h
  run (ev ∷ evs) h = run evs (step ev h)
