-- ===== src/Handler/Autoswitch.antt =====
-- The profile watcher of lact-daemon/src/server/profiles.rs: `update_profile` and `run_watcher`,
-- one round of whose loop is a function. What `select!` yields in a round is its input; which timer
-- ends a burst of events makes no difference to the state.
pub mod InStep
pub mod Update
use yagc.Common.{
  ℕ, ℤ, Bool, true, false, Option, none, some, List, [], ◌∷◌, String, ◌==◌, string_eq, int_eq, not,
  if◌then◌else◌, Result, ok, err,
}
use yagc.Common.Exec.{Exec}
use yagc.Crates.{Crates}
use yagc.Watcher.{
  ProcessInfo, ProfileWatcherEvent, ProfileWatcherState, default_state, handle_profile_event,
  load_full_process_list,
}
use yagc.Rules.{ProfileRule, evaluate_current_profile}
use yagc.Config.{Config, Profile}
use yagc.Handler.{ProfileWatcherCommand, stop, update, Env, Handler, Action, start_profile_watcher}
use yagc.Handler.Switch.{set_current_profile}

-- `PartialEq` of `Option<Rc<str>>`.
unfoldable pub same_name : Option String → Option String → Bool
same_name none none = true
same_name (some a) (some b) = a == b
same_name _ _ = false

-- What a round of the loop finds. What the rest of the daemon does during a burst does not touch
-- the watcher's state, and so counts as done before it.
pub data Input : Type 0 where
  command : ProfileWatcherCommand → Input
  -- what `/proc` answers meanwhile, the first event, and those that come in quick succession
  burst : (ℤ → Option ProcessInfo) → ProfileWatcherEvent → List ProfileWatcherEvent → Input
  -- the inactivity timer; whether a test process could be spawned
  inactivity : Bool → Input

module _ (X : Crates) where
  -- `filter_map(|(name, profile)| Some((name, profile.rule.as_ref()?)))`
  unfoldable pub profile_rules : List (String × Profile X) → List (String × ProfileRule)
  profile_rules [] = []
  profile_rules ((name, profile) ∷ profiles) =
      let rest = profile_rules profiles in
      elim profile.rule [ none ↦ rest | some rule ↦ (name, rule) ∷ rest ]

  -- The profile that the rules choose in a state of the watcher.
  unfoldable pub chosen : Option (ProfileWatcherState X) → Config X → Option String
  unfolding profile_rules
  chosen none c = none
  chosen (some s) c = evaluate_current_profile X s (profile_rules (X.iter c.profiles))

  -- The games that are registered when the watcher starts.
  unfoldable pub add_games : List ℤ → ProfileWatcherState X → ProfileWatcherState X
  add_games [] s = s
  add_games (pid ∷ pids) s =
      add_games pids (record s { gamemode_games = X.insert_member s.gamemode_games pid })

module _ (X : Crates) (E : Env X) where
  unfoldable pub update_profile : Handler X E → Handler X E
  unfolding chosen set_current_profile same_name
  update_profile h =
      let new_profile = chosen X h.profile_watcher_state h.config in
      if not (same_name h.config.current_profile new_profile)
      then (set_current_profile X E new_profile h).1
      else h

  -- The variables of the loop: `should_reload` and `suspiciously_quiet`.
  pub record WatcherLoop : Type 0 where
    pub should_reload : Bool
    pub suspiciously_quiet : Bool

  -- An event changes the state in the handler, if there is one.
  unfoldable pub take_event :
      (ℤ → Option ProcessInfo) → ProfileWatcherEvent → Handler X E × Bool → Handler X E × Bool
  take_event get_pid_info event (h, reload) = elim h.profile_watcher_state [
    | none ↦ (h, reload)
    | some s ↦
        let (t, reload_after) = handle_profile_event X get_pid_info event (s, reload) in
        (record h { profile_watcher_state = some t }, reload_after)
  ]

  unfoldable pub take_events :
      (ℤ → Option ProcessInfo) → List ProfileWatcherEvent → Handler X E × Bool → Handler X E × Bool
  unfolding take_event
  take_events get_pid_info [] p = p
  take_events get_pid_info (event ∷ events) p =
      take_events get_pid_info events (take_event get_pid_info event p)

  -- The watcher waits for the next input, or its task has ended.
  pub data Watching : Type 0 where
    watches : WatcherLoop → Handler X E → Watching
    ended : Handler X E → Watching

  -- After the loop.
  abbrev pub end_watcher : Handler X E → Watching
  end_watcher h = ended (record h { profile_watcher_state = none })

  -- The end of a round.
  unfoldable pub check_reload : WatcherLoop → Handler X E → Watching
  unfolding start_profile_watcher
  check_reload l h =
      if l.should_reload then end_watcher (start_profile_watcher X E h) else watches l h

  unfoldable pub watcher_round : Input → WatcherLoop → Handler X E → Watching
  unfolding update_profile take_events check_reload
  watcher_round (command stop) l h = end_watcher h
  watcher_round (command update) l h = check_reload l (update_profile h)
  watcher_round (burst get_pid_info event events) l h =
      let (t, reload) = take_events get_pid_info (event ∷ events) (h, l.should_reload) in
      check_reload (record { should_reload = reload; suspiciously_quiet = false })
        (update_profile t)
  watcher_round (inactivity spawned) l h =
      if l.suspiciously_quiet
      then check_reload (record l { should_reload = true }) h
      else check_reload (record l { suspiciously_quiet = spawned }) h

  abbrev pub then_watch : (WatcherLoop → Handler X E → Watching) → Watching → Watching
  then_watch next (watches l h) = next l h
  then_watch next (ended h) = ended h

  -- What the rest of the daemon does while the watcher waits: anything, but the watcher's state,
  -- which only the watcher writes.
  unfoldable pub meanwhile : (Handler X E → Handler X E) → Handler X E → Handler X E
  meanwhile others h = record (others h) { profile_watcher_state = h.profile_watcher_state }

  unfoldable pub watcher_loop :
      List ((Handler X E → Handler X E) × Input) → WatcherLoop → Handler X E → Watching
  unfolding watcher_round meanwhile
  watcher_loop [] l h = watches l h
  watcher_loop ((others, input) ∷ turns) l h =
      then_watch (watcher_loop turns) (watcher_round input l (meanwhile others h))

  -- From the scan of the processes and the list of games to the loop.
  unfoldable pub run_watcher :
      (ℤ → Option ProcessInfo)
      → List ℤ
      → List ℤ
      → List ((Handler X E → Handler X E) × Input)
      → Handler X E
      → Watching
  unfolding add_games update_profile watcher_loop
  run_watcher get_pid_info pids games turns h =
      let state =
        add_games X games (load_full_process_list X get_pid_info pids (default_state X)) in
      watcher_loop turns (record { should_reload = false; suspiciously_quiet = false })
        (update_profile (record h { profile_watcher_state = some state }))
