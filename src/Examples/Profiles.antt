-- ===== src/Examples/Profiles.antt =====
-- Profiles of the example daemon, and the watcher that chooses among them.
use yagc.Common.{
  ◌≡◌, ◌↔◌, refl, ℕ, ◌<◌, ℤ, pos, true, false, Option, none, some, List, [], ◌∷◌, ◌++◌, String,
  ◌==◌, nat_eq, string_eq, int_eq, ok, err, arith, if◌then◌else◌, length, get_elem?,
  profile_not_found,
}
use yagc.Common.Entries.{lookup, index_of}
use yagc.Watcher.{
  ProcessInfo, ProfileWatcherState, exec, process, gamemode, ProfileWatcherEvent, default_state,
  handle_events, load_full_process_list,
}
use yagc.Watcher.Consistent.{
  IsConsistent, default_state-IsConsistent, handle_events-IsConsistent,
  load_full_process_list-IsConsistent,
}
use yagc.Rules.{ProfileRule, profile_rule_matches, evaluate_current_profile}
use yagc.Rules
use yagc.Rules.Choice.{Demands, NoneMatch, profile_rule_matches_iff, evaluate_current_profile-first}
use yagc.Config.{Config, Profile}
use yagc.Config.Migration.{migrate_versions, finished}
use yagc.Config.Migration.Effect.{IsMigrated, migrate_versions-IsMigrated}
use yagc.Config.Profiles.{gpus, with_gpus}
use yagc.Config.Profiles.Active.{IsWritten, with_gpus-IsWritten}
use yagc.Handler.{update, tell_watcher, stop_profile_watcher}
use yagc.Handler.{Handler}
use yagc.Handler.Switch.{
  set_profile_rule, copy_of, create_profile, delete_profile, move_profile, set_profile,
  base_profile, set_profiles, is_current,
}
use yagc.Handler.Switch.Changes.{
  create_profile-ok, delete_profile-gone, move_profile-exchanges, set_profile_unknown,
}
use yagc.Handler.Autoswitch.{Input, command, burst, inactivity, run_watcher}
use yagc.Handler.Autoswitch.InStep.{last_evaluates, IsFollowing, run_watcher-IsFollowing}
use yagc.Examples.{crates, env, start, two_profiles}

abbrev proc : ℤ → Option ProcessInfo
proc (pos n) = if n == 7 then some (record { name = "game"; cmdline = "game --fast" }) else none
proc pid = none

abbrev events : List ProfileWatcherEvent
events = process (exec (pos 7)) ∷ gamemode (exec (pos 7)) ∷ process (exec (pos 8)) ∷ []

handle_events-IsConsistent_example :
    IsConsistent crates (handle_events crates proc events (default_state crates, false)).0
handle_events-IsConsistent_example =
    handle_events-IsConsistent crates proc events (default_state crates) false
      (default_state-IsConsistent crates)

load_full_process_list-IsConsistent_example :
    IsConsistent crates
      (load_full_process_list crates proc (pos 7 ∷ pos 8 ∷ []) (default_state crates))
load_full_process_list-IsConsistent_example =
    load_full_process_list-IsConsistent crates proc (pos 7 ∷ pos 8 ∷ []) (default_state crates)
      (default_state-IsConsistent crates)

abbrev fast_game : ProfileRule
fast_game = Rules.process (record { name = "game"; args = some "--fast" })

abbrev any_game : ProfileRule
any_game = Rules.gamemode none

profile_rule_matches_iff_example :
    let s = (handle_events crates proc events (default_state crates, false)).0 in
    (profile_rule_matches crates s fast_game ≡ true) ↔ Demands crates s fast_game
profile_rule_matches_iff_example =
    profile_rule_matches_iff crates
      (handle_events crates proc events (default_state crates, false)).0
      (handle_events-IsConsistent crates proc events (default_state crates) false
        (default_state-IsConsistent crates))
      fast_game

abbrev rules : List (String × ProfileRule)
rules = ("slow", Rules.process (record { name = "tool"; args = none })) ∷ ("fast", any_game) ∷ []

abbrev playing : ProfileWatcherState crates
playing = record {
  process_list = (pos 7, record { name = "game"; cmdline = "game --fast" }) ∷ [];
  gamemode_games = pos 7 ∷ [];
  process_names_map = ("game", pos 7 ∷ []) ∷ [];
}

chosen : evaluate_current_profile crates playing rules ≡ some "fast"
unfolding evaluate_current_profile profile_rule_matches Rules.process_rule_matches lookup
chosen = refl

evaluate_current_profile-first_example :
    (before : List (String × ProfileRule)) × (rule : ProfileRule) × (after : List
      (String × ProfileRule))
    × (rules ≡ before ++ ("fast", rule) ∷ after)
    × NoneMatch crates playing before
    × (profile_rule_matches crates playing rule ≡ true)
evaluate_current_profile-first_example = evaluate_current_profile-first crates playing rules chosen

migrate_versions-IsMigrated_example :
    (d : Config crates) × (migrate_versions crates two_profiles ≡ finished d)
    × IsMigrated crates two_profiles d
migrate_versions-IsMigrated_example = migrate_versions-IsMigrated crates two_profiles (omega arith)

with_gpus-IsWritten_example :
    (d : Config crates) × (with_gpus crates two_profiles [] ≡ ok d)
    × IsWritten crates two_profiles d none []
unfolding gpus
with_gpus-IsWritten_example = with_gpus-IsWritten crates two_profiles {m = []} [] refl

created : (create_profile crates env "new" (copy_of "quiet") start).0 ≡ ok tt
unfolding create_profile lookup
created = refl

create_profile-ok_example :
    let h' = (create_profile crates env "new" (copy_of "quiet") start).1 in
    (p : Profile crates) × (base_profile crates env start.config (copy_of "quiet") ≡ ok p)
    × (crates.get start.config.profiles "new" ≡ none)
    × ((other : String)
        → crates.get h'.config.profiles other
          ≡ (if "new" == other then some p else crates.get start.config.profiles other))
    × (set_profiles crates env start.config.profiles h'.config ≡ start.config)
    × (h'.watcher_commands ≡ (tell_watcher crates env update start).watcher_commands)
create_profile-ok_example = create_profile-ok crates env "new" (copy_of "quiet") start created

delete_profile-gone_example :
    let h' = (delete_profile crates env "quiet" start).1 in
    ((other : String)
      → crates.get h'.config.profiles other
        ≡ (if "quiet" == other then none else crates.get start.config.profiles other))
    × (h'.config.current_profile ≡ (
        if is_current start.config.current_profile "quiet"
        then none
        else start.config.current_profile))
    × (h'.config.gpus ≡ start.config.gpus)
delete_profile-gone_example = delete_profile-gone crates env "quiet" start

moved : (move_profile crates env "loud" 0 start).0 ≡ ok tt
unfolding move_profile index_of
moved = refl

move_profile-exchanges_example :
    let l = start.config.profiles in
    (i : ℕ) × (p : Profile crates) × (get_elem? l i ≡ some ("loud", p))
    × (0 < length l)
    × ((n : ℕ)
        → get_elem? (move_profile crates env "loud" 0 start).1.config.profiles n
          ≡ (if 0 == n then some ("loud", p) else if i == n then get_elem? l 0 else get_elem? l n))
move_profile-exchanges_example = move_profile-exchanges crates env "loud" 0 start moved

set_profile_unknown_example :
    ((set_profile crates env (some "absent") false start).0 ≡ err (profile_not_found "absent"))
    × ((set_profile crates env (some "absent") false start).1
        ≡ stop_profile_watcher crates env start)
    × ((set_profile crates env (some "absent") false start).1.config.auto_switch_profiles ≡ false)
unfolding lookup
set_profile_unknown_example = set_profile_unknown crates env "absent" start refl

-- The rule of a profile changes while the watcher waits.
abbrev rule_for_games : Handler crates env → Handler crates env
rule_for_games h = (set_profile_rule crates env "loud" (some any_game) h).1

abbrev turns : List ((Handler crates env → Handler crates env) × Input)
turns =
    (λ h. h, burst proc (process (exec (pos 7))) [])
    ∷ (λ h. h, inactivity true)
    ∷ (rule_for_games, command update)
    ∷ []

run_watcher-IsFollowing_example :
    IsFollowing crates env true (run_watcher crates env proc (pos 8 ∷ []) [] turns start)
unfolding last_evaluates
run_watcher-IsFollowing_example =
    run_watcher-IsFollowing crates env proc (pos 8 ∷ []) [] turns start
