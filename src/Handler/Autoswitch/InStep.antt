-- ===== src/Handler/Autoswitch/InStep.antt =====
-- While the watcher runs, the daemon is at the profile that the rules choose.
use yagc.Common.{
  ◌≡◌, refl, ℤ, Bool, true, false, Option, none, some, List, [], ◌∷◌, string_eq, int_eq, inl, inr,
  Bool-cases,
}
use yagc.Crates.{Crates}
use yagc.Watcher.{ProcessInfo, default_state, load_full_process_list}
use yagc.Watcher.Consistent.{default_state-IsConsistent, load_full_process_list-IsConsistent}
use yagc.Handler.{Env, Handler, stop, update}
use yagc.Handler.Autoswitch.{
  Input, command, burst, inactivity, update_profile, WatcherLoop, take_events, Watching, watches,
  ended, check_reload, watcher_round, meanwhile, then_watch, watcher_loop, add_games, run_watcher,
}
use yagc.Handler.Autoswitch.Update.{
  HasState, IsInStep, add_games-IsConsistent, update_profile-IsInStep, take_events-HasState,
}

module _ (X : Crates) (E : Env X) where
  -- Whether a round ends with an evaluation of the rules, and whether the last of some turns did.
  unfoldable pub evaluates : Input → Bool
  evaluates (command c) = true
  evaluates (burst get_pid_info event events) = true
  evaluates (inactivity spawned) = false

  unfoldable pub last_evaluates : Bool → List ((Handler X E → Handler X E) × Input) → Bool
  unfolding evaluates
  last_evaluates before [] = before
  last_evaluates before ((others, input) ∷ turns) = last_evaluates (evaluates input) turns

  unfoldable pub Stands : Bool → Handler X E → Type 0
  Stands true h = IsInStep X E h
  Stands false h = HasState X E h

  -- What holds when the watcher waits for an input, just after an evaluation or not, and when its
  -- task has ended.
  unfoldable pub IsFollowing : Bool → Watching X E → Type 0
  unfolding Stands
  IsFollowing evaluated (watches l h) = Stands evaluated h
  IsFollowing evaluated (ended h) = h.profile_watcher_state ≡ none

  Stands-HasState : (evaluated : Bool) (h : Handler X E) → Stands evaluated h → HasState X E h
  unfolding Stands
  Stands-HasState true h s = s.has_state
  Stands-HasState false h s = s

  check_reload-IsFollowing :
      (evaluated : Bool) (l : WatcherLoop X E) (h : Handler X E)
      → Stands evaluated h
      → IsFollowing evaluated (check_reload X E l h)
  unfolding IsFollowing check_reload
  check_reload-IsFollowing evaluated l h s = elim (Bool-cases l.should_reload) [
    | inl reload ↦ rw (reload) refl
    | inr goes_on ↦ rw (goes_on) s
  ]

  watcher_round-IsFollowing :
      (input : Input) (l : WatcherLoop X E) (h : Handler X E)
      → HasState X E h
      → IsFollowing (evaluates input) (watcher_round X E input l h)
  unfolding IsFollowing Stands evaluates watcher_round
  watcher_round-IsFollowing (command stop) l h s = refl
  watcher_round-IsFollowing (command update) l h s =
      check_reload-IsFollowing true l (update_profile X E h) (update_profile-IsInStep X E h s)
  watcher_round-IsFollowing (burst get_pid_info event events) l h s =
      let p = take_events X E get_pid_info (event ∷ events) (h, l.should_reload) in
      check_reload-IsFollowing true (record { should_reload = p.1; suspiciously_quiet = false })
        (update_profile X E p.0)
        (update_profile-IsInStep X E p.0
          (take_events-HasState X E get_pid_info (event ∷ events) h l.should_reload s))
  watcher_round-IsFollowing (inactivity spawned) l h s = elim (Bool-cases l.suspiciously_quiet) [
    | inl quiet ↦
        rw (quiet) (check_reload-IsFollowing false (record l { should_reload = true }) h s)
    | inr active ↦
        rw (active) (check_reload-IsFollowing false (record l { suspiciously_quiet = spawned }) h s)
  ]

  meanwhile-HasState :
      (others : Handler X E → Handler X E) (h : Handler X E)
      → HasState X E h
      → HasState X E (meanwhile X E others h)
  unfolding meanwhile
  meanwhile-HasState others h s = record {
    state = s.state;
    present = s.present;
    consistent = s.consistent;
  }

  then_watch-IsFollowing :
      (next : WatcherLoop X E → Handler X E → Watching X E) (w : Watching X E) (before after : Bool)
      → ((l : WatcherLoop X E) (h : Handler X E) → Stands before h → IsFollowing after (next l h))
      → IsFollowing before w
      → IsFollowing after (then_watch X E next w)
  unfolding IsFollowing
  then_watch-IsFollowing next (watches l h) before after k f = k l h f
  then_watch-IsFollowing next (ended h) before after k f = f

  watcher_loop-IsFollowing :
      (turns : List ((Handler X E → Handler X E) × Input)) (evaluated : Bool) (l : WatcherLoop X E)
      (h : Handler X E)
      → Stands evaluated h
      → IsFollowing (last_evaluates evaluated turns) (watcher_loop X E turns l h)
  unfolding IsFollowing last_evaluates watcher_loop
  watcher_loop-IsFollowing [] evaluated l h s = s
  watcher_loop-IsFollowing ((others, input) ∷ turns) evaluated l h s =
      then_watch-IsFollowing (watcher_loop X E turns)
        (watcher_round X E input l (meanwhile X E others h)) (evaluates input)
        (last_evaluates (evaluates input) turns) (watcher_loop-IsFollowing turns (evaluates input))
        (watcher_round-IsFollowing input l (meanwhile X E others h)
          (meanwhile-HasState others h (Stands-HasState evaluated h s)))

  -- From any state of the daemon, whatever processes run, whatever events, commands and timers
  -- arrive, whatever the controllers answer, and whatever the rest of the daemon does to the
  -- configuration and the GPUs while the watcher waits: when the watcher has just started or has
  -- taken events or a command to update, and waits for its next input, its state is consistent and
  -- the daemon is at the profile that the rules of the present configuration choose in that state.
  -- After an input of the inactivity timer the state is consistent. When the watcher has ended, the
  -- handler holds no state of it.
  pub run_watcher-IsFollowing :
      (get_pid_info : ℤ → Option ProcessInfo) (pids games : List ℤ)
      (turns : List ((Handler X E → Handler X E) × Input)) (h : Handler X E)
      → IsFollowing (last_evaluates true turns) (run_watcher X E get_pid_info pids games turns h)
  unfolding run_watcher Stands
  run_watcher-IsFollowing get_pid_info pids games turns h =
      let scanned = load_full_process_list X get_pid_info pids (default_state X) in
      let t : Handler X E = record h { profile_watcher_state = some (add_games X games scanned) } in
      watcher_loop-IsFollowing turns true
        (record { should_reload = false; suspiciously_quiet = false }) (update_profile X E t)
        (update_profile-IsInStep X E t (record {
          state = add_games X games scanned;
          present = refl;
          consistent = add_games-IsConsistent X games scanned (
              load_full_process_list-IsConsistent X get_pid_info pids (default_state X)
                (default_state-IsConsistent X));
        }))
