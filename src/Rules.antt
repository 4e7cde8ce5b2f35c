-- ===== src/Rules.antt =====
-- Which profile the rules choose: `profile_rule_matches` and `evaluate_current_profile` of
-- lact-daemon/src/server/profiles.rs, over the rules of lact-schema/src/lib.rs.
pub mod Choice
use yagc.Common.{
  ℤ, Bool, true, false, Option, none, some, List, [], ◌∷◌, String, ◌&&◌, not, is_some, string_eq,
  int_eq, if◌then◌else◌,
}
use text.Mathlib.Text.{find?}
use yagc.Common.Entries.{lookup}
use yagc.Common.Members.{any}
use yagc.Crates.{Crates}
use yagc.Watcher.{ProcessInfo, ProfileWatcherState}

pub record ProcessProfileRule : Type 0 where
  pub name : String
  pub args : Option String

pub data ProfileRule : Type 0 where
  process : ProcessProfileRule → ProfileRule
  gamemode : Option ProcessProfileRule → ProfileRule

-- `cmdline.contains(args_filter)`
unfoldable pub cmdline_contains : ProcessInfo → String → Bool
cmdline_contains info args_filter = is_some (find? info.cmdline args_filter)

module _ (X : Crates) where
  -- One round of the loops: a process of the list whose command line passes the filter. An id that
  -- is not in the list is an error message, and no match.
  unfoldable pub pid_passes : ProfileWatcherState X → String → ℤ → Bool
  unfolding cmdline_contains
  pid_passes s args_filter pid = elim (X.get s.process_list pid) [
    | none ↦ false
    | some info ↦ cmdline_contains info args_filter
  ]

  unfoldable pub process_rule_matches :
      ProfileWatcherState X → Option (List ℤ) → Option String → Bool
  process_rule_matches s none args = false
  process_rule_matches s (some pids) none = true
  process_rule_matches s (some pids) (some args_filter) = any (pid_passes s args_filter) pids

  -- One round of the loop over the ids of a rule for games.
  unfoldable pub game_passes : ProfileWatcherState X → Option String → ℤ → Bool
  game_passes s none pid = X.contains s.gamemode_games pid
  game_passes s (some args_filter) pid =
      X.contains s.gamemode_games pid && pid_passes s args_filter pid

  unfoldable pub gamemode_rule_matches :
      ProfileWatcherState X → Option (List ℤ) → Option String → Bool
  gamemode_rule_matches s none args = false
  gamemode_rule_matches s (some pids) args = any (game_passes s args) pids

  unfoldable pub profile_rule_matches : ProfileWatcherState X → ProfileRule → Bool
  profile_rule_matches s (process rule) =
      process_rule_matches s (lookup s.process_names_map rule.name) rule.args
  profile_rule_matches s (gamemode none) = not (X.is_empty_set s.gamemode_games)
  profile_rule_matches s (gamemode (some rule)) =
      gamemode_rule_matches s (lookup s.process_names_map rule.name) rule.args

  -- The first profile whose rule matches.
  unfoldable pub evaluate_current_profile :
      ProfileWatcherState X → List (String × ProfileRule) → Option String
  evaluate_current_profile s [] = none
  evaluate_current_profile s ((name, rule) ∷ rules) =
      if profile_rule_matches s rule then some name else evaluate_current_profile s rules
