-- ===== src/Watcher.antt =====
-- lact-schema/src/profiles.rs and the state of the profile watcher of lact-schema/src/lib.rs: which
-- processes run, which of them play games, and an index from a process's name to its ids. The
-- events that the watcher of lact-daemon/src/server/profiles.rs reads change it.
pub mod Consistent
use yagc.Common.{
  ℤ, Bool, true, false, Option, none, some, List, [], ◌∷◌, String, ◌==◌, ◌||◌, if◌then◌else◌,
  is_empty, string_eq, int_eq, unwrap_or,
}
use yagc.Common.Entries
use yagc.Common.Members
use yagc.Crates.{Crates}

pub record ProcessInfo : Type 0 where
  pub name : String
  pub cmdline : String

-- `HashMap<Arc<str>, HashSet<i32>>`
abbrev pub NamesMap : Type 0
NamesMap = List (String × List ℤ)

-- `copes::solver::PEvent`
pub data PEvent : Type 0 where
  exec : ℤ → PEvent
  exit : ℤ → PEvent

pub data ProfileWatcherEvent : Type 0 where
  process : PEvent → ProfileWatcherEvent
  gamemode : PEvent → ProfileWatcherEvent

abbrev pub gamemode_process_name : String
gamemode_process_name = "gamemoded"

-- `entry(name)`: an occupied entry loses the id, and goes when its set is empty.
unfoldable pub drop_pid : NamesMap → String → ℤ → NamesMap
drop_pid names name pid = elim (Entries.lookup names name) [
  | none ↦ names
  | some pids ↦
      let rest = Members.discard pids pid in
      if is_empty rest then Entries.remove names name else Entries.insert names name rest
]

-- `entry(name).or_default().insert(pid)`
unfoldable pub add_pid : NamesMap → String → ℤ → NamesMap
add_pid names name pid =
    Entries.insert names name (Members.add (unwrap_or (Entries.lookup names name) []) pid)

-- Of a process that is replaced under the same id, the old name loses the id.
unfoldable pub drop_replaced : NamesMap → Option ProcessInfo → ℤ → NamesMap
drop_replaced names none pid = names
drop_replaced names (some old_info) pid = drop_pid names old_info.name pid

module _ (X : Crates) where
  pub record ProfileWatcherState : Type 0 where
    pub process_list : X.IndexMap ℤ ProcessInfo
    pub gamemode_games : X.IndexSet ℤ
    pub process_names_map : NamesMap

  abbrev pub default_state : ProfileWatcherState
  default_state = record {
    process_list = X.new;
    gamemode_games = X.new_set;
    process_names_map = [];
  }

  unfoldable pub push_process : ProfileWatcherState → ℤ → ProcessInfo → ProfileWatcherState
  unfolding drop_replaced
  push_process s pid info =
      let names = drop_replaced s.process_names_map (X.get s.process_list pid) pid in
      record s {
        process_list = X.set_entry s.process_list pid info;
        process_names_map = add_pid names info.name pid;
      }

  -- The information is returned only when the process was the last one of its name.
  unfoldable pub remove_process : ProfileWatcherState → ℤ → ProfileWatcherState × Option ProcessInfo
  remove_process s pid = elim (X.get s.process_list pid) [
    | none ↦ (s, none)
    | some info ↦
        let t = record s {
          process_list = X.shift_remove s.process_list pid;
          process_names_map = drop_pid s.process_names_map info.name pid;
        } in
        (
          t,
          elim (Entries.lookup s.process_names_map info.name) [
            | none ↦ none
            | some pids ↦ if is_empty (Members.discard pids pid) then some info else none
          ],
        )
  ]

  -- What `/proc` says of a process; `none` is a read error.
  module _ (get_pid_info : ℤ → Option ProcessInfo) where
    -- The new state, and whether the watcher is to reload.
    unfoldable pub handle_profile_event :
        ProfileWatcherEvent → ProfileWatcherState × Bool → ProfileWatcherState × Bool
    handle_profile_event (process (exec pid)) (s, reload) = elim (get_pid_info pid) [
      | none ↦ (s, reload)
      | some info ↦
          (push_process s pid info, if info.name == gamemode_process_name then true else reload)
    ]
    handle_profile_event (process (exit pid)) (s, reload) = ((remove_process s pid).0, reload)
    handle_profile_event (gamemode (exec pid)) (s, reload) =
        (record s { gamemode_games = X.insert_member s.gamemode_games pid }, reload)
    handle_profile_event (gamemode (exit pid)) (s, reload) =
        (record s { gamemode_games = X.remove_member s.gamemode_games pid }, reload)

    -- The events of one burst, in the order of arrival.
    unfoldable pub handle_events :
        List ProfileWatcherEvent → ProfileWatcherState × Bool → ProfileWatcherState × Bool
    handle_events [] s = s
    handle_events (ev ∷ evs) s = handle_events evs (handle_profile_event ev s)

  -- The ids of `/proc`'s entries; those that can be read are pushed.
  unfoldable pub load_full_process_list :
      (ℤ → Option ProcessInfo) → List ℤ → ProfileWatcherState → ProfileWatcherState
  load_full_process_list get_pid_info [] s = s
  load_full_process_list get_pid_info (pid ∷ pids) s =
      load_full_process_list get_pid_info pids
        (elim (get_pid_info pid) [ none ↦ s | some info ↦ push_process s pid info ])
