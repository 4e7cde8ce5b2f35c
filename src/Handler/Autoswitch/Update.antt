-- ===== src/Handler/Autoswitch/Update.antt =====
-- After `update_profile` of lact-daemon/src/server/profiles.rs the daemon is at the profile that the
-- rules choose, and events keep the watcher's state consistent.
use yagc.Common.{
  ◌≡◌, refl, sym, ap, ◌∙◌, ℤ, Bool, true, Option, none, some, List, [], ◌∷◌, String, string_eq,
  int_eq, arith, is_some, inl, inr, Bool-cases, Option-cases,
}
use yagc.Common.Entries.{lookup}
use yagc.Crates.{Crates}
use yagc.Watcher.{ProcessInfo, ProfileWatcherEvent, ProfileWatcherState, handle_profile_event}
use yagc.Watcher.Consistent.{IsConsistent, handle_profile_event-IsConsistent}
use yagc.Rules.{evaluate_current_profile}
use yagc.Config.{Config, Profile}
use yagc.Config.Profiles.{profile}
use yagc.Handler.{Env, Handler, apply_current_config}
use yagc.Handler.Switch.{set_current_profile}
use yagc.Handler.Switch.Active.{is_profile}
use yagc.Handler.Autoswitch.{
  same_name, profile_rules, chosen, update_profile, take_event, take_events, add_games,
}

same_name_sound : (a b : Option String) → same_name a b ≡ true → a ≡ b
unfolding same_name
same_name_sound none none h = refl
same_name_sound none (some b) h = absurd (ground arith)
same_name_sound (some a) none h = absurd (ground arith)
same_name_sound (some a) (some b) h = ground (arith, string_eq.test_iff a b)

module _ (X : Crates) where
  evaluate_current_profile-listed :
      (s : ProfileWatcherState X) (profiles : List (String × Profile X)) (name : String)
      → evaluate_current_profile X s (profile_rules X profiles) ≡ some name
      → is_some (lookup profiles name) ≡ true
  unfolding evaluate_current_profile profile_rules lookup
  evaluate_current_profile-listed s [] name h = absurd (ground arith)
  evaluate_current_profile-listed s ((other, p) ∷ profiles) name h = elim (Option-cases p.rule) [
    | inl unruled ↦ ground (arith, evaluate_current_profile-listed s profiles name)
    | inr (rule, ruled) ↦
        ground
          (arith, evaluate_current_profile-listed s profiles name, string_eq.test_iff other name)
  ]

  chosen-profiles :
      (o : Option (ProfileWatcherState X)) (c d : Config X)
      → c.profiles ≡ d.profiles
      → chosen X o c ≡ chosen X o d
  unfolding chosen
  chosen-profiles none c d e = refl
  chosen-profiles (some s) c d e = rw (e) refl

  pub add_games-IsConsistent :
      (games : List ℤ) (s : ProfileWatcherState X)
      → IsConsistent X s
      → IsConsistent X (add_games X games s)
  unfolding add_games
  add_games-IsConsistent [] s c = c
  add_games-IsConsistent (pid ∷ games) s c =
      add_games-IsConsistent games
        (record s { gamemode_games = X.insert_member s.gamemode_games pid })
        (record { indexed = c.indexed; full = c.full })

module _ (X : Crates) (E : Env X) where
  set_current_profile-switches :
      (name : Option String) (h : Handler X E)
      → is_profile X E h.config.profiles name ≡ true
      → ((set_current_profile X E name h).1.config ≡ record h.config { current_profile = name })
        × ((set_current_profile X E name h).1.profile_watcher_state ≡ h.profile_watcher_state)
  unfolding set_current_profile profile apply_current_config
  set_current_profile-switches name h e = ground arith

  chosen-is_profile :
      (o : Option (ProfileWatcherState X)) (c : Config X)
      → is_profile X E c.profiles (chosen X o c) ≡ true
  unfolding chosen
  chosen-is_profile none c = refl
  chosen-is_profile (some s) c =
      elim (Option-cases (evaluate_current_profile X s (profile_rules X (X.iter c.profiles)))) [
        | inl e ↦ rw (e) refl
        | inr (name, e) ↦
            rw (e, X.get-iter c.profiles name)
              (evaluate_current_profile-listed X s (X.iter c.profiles) name e)
      ]

  -- After an update the daemon is at the profile that the rules choose among the configuration's
  -- profiles, which are as they were, and so is the watcher's state.
  update_profile-chosen :
      (h : Handler X E)
      → ((update_profile X E h).config.current_profile ≡ chosen X h.profile_watcher_state h.config)
        × ((update_profile X E h).config.profiles ≡ h.config.profiles)
        × ((update_profile X E h).profile_watcher_state ≡ h.profile_watcher_state)
  unfolding update_profile
  update_profile-chosen h =
      let name = chosen X h.profile_watcher_state h.config in
      elim (Bool-cases (same_name h.config.current_profile name)) [
        | inl same ↦ rw (same) (same_name_sound h.config.current_profile name same, refl, refl)
        | inr other ↦
            let (config, state) =
              set_current_profile-switches name h
                (chosen-is_profile h.profile_watcher_state h.config) in
            rw (other) (
              ap (λ (c : Config X). c.current_profile) config,
              ap (λ (c : Config X). c.profiles) config,
              state,
            )
      ]

  -- The watcher's state is there, and consistent.
  pub record HasState (h : Handler X E) : Type 0 where
    pub state : ProfileWatcherState X
    pub present : h.profile_watcher_state ≡ some state
    pub consistent : IsConsistent X state

  -- And the daemon is at the profile that the rules choose in it.
  pub record IsInStep (h : Handler X E) : Type 0 where
    pub has_state : HasState h
    pub current : h.config.current_profile ≡ chosen X h.profile_watcher_state h.config

  pub update_profile-IsInStep : (h : Handler X E) → HasState h → IsInStep (update_profile X E h)
  update_profile-IsInStep h s =
      let (current, profiles, state) = update_profile-chosen h in
      record {
        has_state = record {
          state = s.state;
          present = state ∙ s.present;
          consistent = s.consistent;
        };
        current = rw (state) (
            current
            ∙ sym (
                chosen-profiles X h.profile_watcher_state (update_profile X E h).config h.config
                  profiles));
      }

  take_event-HasState :
      (get_pid_info : ℤ → Option ProcessInfo) (event : ProfileWatcherEvent) (h : Handler X E)
      (reload : Bool)
      → HasState h
      → HasState (take_event X E get_pid_info event (h, reload)).0
  unfolding take_event
  take_event-HasState get_pid_info event h reload s = record {
    state = (handle_profile_event X get_pid_info event (s.state, reload)).0;
    present = rw (s.present) refl;
    consistent = handle_profile_event-IsConsistent X get_pid_info event s.state reload s.consistent;
  }

  pub take_events-HasState :
      (get_pid_info : ℤ → Option ProcessInfo) (events : List ProfileWatcherEvent) (h : Handler X E)
      (reload : Bool)
      → HasState h
      → HasState (take_events X E get_pid_info events (h, reload)).0
  unfolding take_events
  take_events-HasState get_pid_info [] h reload s = s
  take_events-HasState get_pid_info (event ∷ events) h reload s =
      let p = take_event X E get_pid_info event (h, reload) in
      take_events-HasState get_pid_info events p.0 p.1
        (take_event-HasState get_pid_info event h reload s)
