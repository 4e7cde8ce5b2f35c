-- ===== src/Handler/Switch.antt =====
-- Profiles: `set_profile`, `set_current_profile`, `create_profile`, `delete_profile`,
-- `move_profile`, `set_profile_rule`, `evaluate_profile_rule` and `reset_config` of
-- lact-daemon/src/server/handler.rs.
pub mod Active
pub mod Changes
pub mod Midway
use yagc.Common.{
  ℕ, Bool, true, false, Option, none, some, List, [], ◌∷◌, String, ◌==◌, string_eq, Result, ok, err,
  Error, if◌then◌else◌, is_some, leb, length, ok_or, profile_not_found, profile_exists,
  index_out_of_bounds, watcher_inactive,
}
use yagc.Common.Exec.{Exec, pure, raise, lift, gets, modify, logged, ◌>>=◌, ◌>>◌}
use yagc.Crates.{Crates}
use yagc.Rules.{ProfileRule, profile_rule_matches}
use yagc.Config.{Gpu, Config, Profile, empty_profile}
use yagc.Config.Profiles.{profile, default_profile, clear}
use yagc.Handler.{
  Env, Handler, Action, update, save, cleanup, apply_current_config, tell_watcher,
  stop_profile_watcher, start_profile_watcher,
}

pub data ProfileBase : Type 0 where
  empty default : ProfileBase
  copy_of : String → ProfileBase

-- `current_profile.as_deref() == Some(&name)`
unfoldable pub is_current : Option String → String → Bool
is_current none name = false
is_current (some current) name = current == name

module _ (X : Crates) (E : Env X) where
  -- A change of the configuration in memory.
  abbrev pub edit_config : (Config X → Config X) → Handler X E → Handler X E
  edit_config f h = record h { config = f h.config }

  abbrev pub set_profiles : X.IndexMap String (Profile X) → Config X → Config X
  set_profiles m c = record c { profiles = m }

  abbrev pub check_profile : Option String → Action X E (Unit {0})
  check_profile none h = (ok tt, h)
  check_profile (some name) h = elim (profile X h.config name) [
    | ok p ↦ (ok tt, h)
    | err e ↦ (err e, h)
  ]

  unfoldable pub set_current_profile : Option String → Action X E (Unit {0})
  unfolding profile cleanup apply_current_config
  set_current_profile name = do
    check_profile name
    cleanup X E
    modify (edit_config (λ c. record c { current_profile = name }))
    apply_current_config X E

  unfoldable pub set_profile : Option String → Bool → Action X E (Unit {0})
  unfolding set_current_profile start_profile_watcher stop_profile_watcher save
  set_profile name auto_switch = do
    if auto_switch
        then modify (start_profile_watcher X E)
        else (modify (stop_profile_watcher X E) >> set_current_profile name)
    modify (edit_config (λ c. record c { auto_switch_profiles = auto_switch }))
    save X E

  -- The profile that a new one starts from.
  unfoldable pub base_profile : Config X → ProfileBase → Result (Profile X)
  unfolding default_profile profile
  base_profile c empty = ok (empty_profile X)
  base_profile c default = ok (default_profile X c)
  base_profile c (copy_of name) = profile X c name

  unfoldable pub create_profile : String → ProfileBase → Action X E (Unit {0})
  unfolding base_profile save tell_watcher
  create_profile name base h =
      if is_some (X.get h.config.profiles name)
      then (err (profile_exists name), h)
      else (do
        p ← lift (base_profile h.config base)
        modify (edit_config (λ c. set_profiles (X.set_entry c.profiles name p) c))
        save X E
        modify (tell_watcher X E update))
          h

  unfoldable pub delete_profile : String → Action X E (Unit {0})
  unfolding set_current_profile is_current save tell_watcher
  delete_profile name h =
      (do
        if is_current h.config.current_profile name then set_current_profile none else pure tt
        modify (edit_config (λ c. set_profiles (X.shift_remove c.profiles name) c))
        save X E
        modify (tell_watcher X E update))
        h

  unfoldable pub move_profile : String → ℕ → Action X E (Unit {0})
  unfolding save tell_watcher
  move_profile name new_position h = elim (X.get_index_of h.config.profiles name) [
    | none ↦ (err (profile_not_found name), h)
    | some current_index ↦
        if leb (length (X.iter h.config.profiles)) new_position
        then (err index_out_of_bounds, h)
        else (do
          modify (
              edit_config
                (λ c. set_profiles (X.swap_indices c.profiles current_index new_position) c))
          save X E
          modify (tell_watcher X E update))
            h
  ]

  unfoldable pub set_profile_rule : String → Option ProfileRule → Action X E (Unit {0})
  unfolding save tell_watcher
  set_profile_rule name rule h = elim (X.get h.config.profiles name) [
    | none ↦ (err (profile_not_found name), h)
    | some p ↦
        (do
          modify (
              edit_config
                (λ c. set_profiles (X.set_entry c.profiles name (record p { rule = rule })) c))
          save X E
          modify (tell_watcher X E update))
          h
  ]

  unfoldable pub evaluate_profile_rule : ProfileRule → Action X E Bool
  evaluate_profile_rule rule h = elim h.profile_watcher_state [
    | none ↦ (err watcher_inactive, h)
    | some s ↦ (ok (profile_rule_matches X s rule), h)
  ]

  unfoldable pub reset_config : Action X E (Unit {0})
  unfolding cleanup clear save
  reset_config = do cleanup X E; modify (edit_config (clear X)); logged (save X E)
