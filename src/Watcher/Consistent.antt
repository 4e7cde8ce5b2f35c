-- ===== src/Watcher/Consistent.antt =====
-- The two views of the running processes in the watcher's state agree after every event.
use yagc.Common.{
  ◌≡◌, refl, ℤ, Bool, false, Option, none, some, List, [], ◌∷◌, String, ◌==◌, ◌&&◌, if◌then◌else◌,
  is_empty, string_eq, int_eq, unwrap_or, arith, Option-cases, Bool-cases, inl, inr,
}
use yagc.Common.Entries.{lookup}
use yagc.Common.Entries.Laws.{lookup-insert, lookup-remove}
use yagc.Common.Members
use yagc.Common.Members.{member, member-add, member-discard}
use yagc.Crates.{Crates}
use yagc.Crates.Maps.{get-new, get-set_entry, get-shift_remove}
use yagc.Watcher.{
  ProcessInfo, NamesMap, exec, exit, ProfileWatcherEvent, process, gamemode, drop_pid, add_pid,
  drop_replaced, ProfileWatcherState, default_state, push_process, remove_process,
  handle_profile_event, handle_events, load_full_process_list,
}

-- The ids that the index holds under a name.
abbrev pub pids_of : NamesMap → String → List ℤ
pids_of names name = unwrap_or (lookup names name) []

-- The process in question runs under `name`.
abbrev pub runs_as : Option ProcessInfo → String → Bool
runs_as none name = false
runs_as (some info) name = info.name == name

-- No name of the index has an empty set.
abbrev pub HasNoEmptySet : NamesMap → Type 0
HasNoEmptySet names =
    (name : String) (pids : List ℤ) → lookup names name ≡ some pids → is_empty pids ≡ false

pids_of-drop_pid :
    (names : NamesMap) (name other : String) (pid : ℤ)
    → pids_of (drop_pid names name pid) other
      ≡ (if name == other then Members.discard (pids_of names name) pid else pids_of names other)
unfolding drop_pid Members.discard
pids_of-drop_pid names name other pid = elim (Option-cases (lookup names name)) [
  | inl e ↦ rw (e, drop_pid) (ground (arith, string_eq.test_iff name other))
  | inr (pids, e) ↦ elim (Bool-cases (is_empty (Members.discard pids pid))) [
    | inl last ↦ ground (arith, lookup-remove names name other, string_eq.test_iff name other)
    | inr more ↦ ground (
      arith,
      lookup-insert names name other (Members.discard pids pid),
      string_eq.test_iff name other,
    )
  ]
]

pids_of-add_pid :
    (names : NamesMap) (name other : String) (pid : ℤ)
    → pids_of (add_pid names name pid) other
      ≡ (if name == other then Members.add (pids_of names name) pid else pids_of names other)
unfolding add_pid
pids_of-add_pid names name other pid =
    ground (arith, lookup-insert names name other (Members.add (pids_of names name) pid))

drop_pid-HasNoEmptySet :
    (names : NamesMap) (name : String) (pid : ℤ)
    → HasNoEmptySet names
    → HasNoEmptySet (drop_pid names name pid)
unfolding drop_pid
drop_pid-HasNoEmptySet names name pid full other pids h = elim (Option-cases (lookup names name)) [
  | inl e ↦ ground (arith, full other pids)
  | inr (old, e) ↦ ground (
    arith,
    full other pids,
    lookup-insert names name other (Members.discard old pid),
    lookup-remove names name other,
  )
]

add_pid-HasNoEmptySet :
    (names : NamesMap) (name : String) (pid : ℤ)
    → HasNoEmptySet names
    → HasNoEmptySet (add_pid names name pid)
unfolding add_pid Members.add
add_pid-HasNoEmptySet names name pid full other pids h = ground (
  arith,
  full other pids,
  full name pids,
  lookup-insert names name other (Members.add (pids_of names name) pid),
)

member-drop_replaced :
    (names : NamesMap) (old : Option ProcessInfo) (p : ℤ) (name : String) (pid : ℤ)
    → member (pids_of (drop_replaced names old p) name) pid
      ≡ (if runs_as old name && (p == pid) then false else member (pids_of names name) pid)
unfolding drop_replaced
member-drop_replaced names none p name pid = refl
member-drop_replaced names (some info) p name pid = ground (
  arith,
  pids_of-drop_pid names info.name name p,
  member-discard (pids_of names info.name) p pid,
  string_eq.test_iff info.name name,
)

drop_replaced-HasNoEmptySet :
    (names : NamesMap) (old : Option ProcessInfo) (p : ℤ)
    → HasNoEmptySet names
    → HasNoEmptySet (drop_replaced names old p)
unfolding drop_replaced
drop_replaced-HasNoEmptySet names none p full = full
drop_replaced-HasNoEmptySet names (some info) p full = drop_pid-HasNoEmptySet names info.name p full

module _ (X : Crates) where
  -- The index from names to ids says exactly which process runs under which name.
  pub record IsConsistent (s : ProfileWatcherState X) : Type 0 where
    pub indexed :
        (name : String) (pid : ℤ)
        → member (pids_of s.process_names_map name) pid ≡ runs_as (X.get s.process_list pid) name
    pub full : HasNoEmptySet s.process_names_map

  pub default_state-IsConsistent : IsConsistent (default_state X)
  unfolding member lookup
  default_state-IsConsistent = record {
    indexed = λ name pid. rw (get-new X {V = ProcessInfo} pid);
    full = λ name pids h. cc;
  }

  push_process-IsConsistent :
      (s : ProfileWatcherState X) (p : ℤ) (info : ProcessInfo)
      → IsConsistent s
      → IsConsistent (push_process X s p info)
  unfolding push_process
  push_process-IsConsistent s p info c = record {
    indexed = λ name pid.
        let kept = drop_replaced s.process_names_map (X.get s.process_list p) p in
        ground (
          arith,
          c.indexed name pid,
          c.indexed name p,
          get-set_entry X s.process_list p pid info,
          pids_of-add_pid kept info.name name p,
          member-add (pids_of kept info.name) p pid,
          member-drop_replaced s.process_names_map (X.get s.process_list p) p name pid,
          string_eq.test_iff info.name name,
          int_eq.test_iff p pid,
        );
    full =
        add_pid-HasNoEmptySet (drop_replaced s.process_names_map (X.get s.process_list p) p)
          info.name p
          (drop_replaced-HasNoEmptySet s.process_names_map (X.get s.process_list p) p c.full);
  }

  remove_process-IsConsistent :
      (s : ProfileWatcherState X) (p : ℤ) → IsConsistent s → IsConsistent (remove_process X s p).0
  unfolding remove_process
  remove_process-IsConsistent s p c = elim (Option-cases (X.get s.process_list p)) [
    | inl e ↦ rw (e, remove_process) c
    | inr (info, e) ↦
        rw (e, remove_process)
          (record {
            indexed = λ name pid. ground (
              arith,
              c.indexed name pid,
              c.indexed name p,
              get-shift_remove X s.process_list p pid,
              pids_of-drop_pid s.process_names_map info.name name p,
              member-discard (pids_of s.process_names_map info.name) p pid,
              string_eq.test_iff info.name name,
              int_eq.test_iff p pid,
            );
            full = drop_pid-HasNoEmptySet s.process_names_map info.name p c.full;
          })
  ]

  module _ (get_pid_info : ℤ → Option ProcessInfo) where
    pub handle_profile_event-IsConsistent :
        (ev : ProfileWatcherEvent) (s : ProfileWatcherState X) (reload : Bool)
        → IsConsistent s
        → IsConsistent (handle_profile_event X get_pid_info ev (s, reload)).0
    unfolding handle_profile_event
    handle_profile_event-IsConsistent (process (exec pid)) s reload c =
        elim (Option-cases (get_pid_info pid)) [
          | inl e ↦ rw (e, handle_profile_event) c
          | inr (info, e) ↦ rw (e, handle_profile_event) (push_process-IsConsistent s pid info c)
        ]
    handle_profile_event-IsConsistent (process (exit pid)) s reload c =
        remove_process-IsConsistent s pid c
    handle_profile_event-IsConsistent (gamemode (exec pid)) s reload c = record {
      indexed = c.indexed;
      full = c.full;
    }
    handle_profile_event-IsConsistent (gamemode (exit pid)) s reload c = record {
      indexed = c.indexed;
      full = c.full;
    }

    -- Whatever events arrive, in whatever order and with whatever `/proc` answers, a consistent
    -- watcher state stays consistent: its index lists an id under a name exactly if that process
    -- is in the list under that name, and holds no empty set.
    pub handle_events-IsConsistent :
        (evs : List ProfileWatcherEvent) (s : ProfileWatcherState X) (reload : Bool)
        → IsConsistent s
        → IsConsistent (handle_events X get_pid_info evs (s, reload)).0
    unfolding handle_events
    handle_events-IsConsistent [] s reload c = c
    handle_events-IsConsistent (ev ∷ evs) s reload c =
        handle_events-IsConsistent evs _ _ (handle_profile_event-IsConsistent ev s reload c)

    -- The scan of `/proc` that a starting watcher makes yields a consistent state.
    pub load_full_process_list-IsConsistent :
        (pids : List ℤ) (s : ProfileWatcherState X)
        → IsConsistent s
        → IsConsistent (load_full_process_list X get_pid_info pids s)
    unfolding load_full_process_list
    load_full_process_list-IsConsistent [] s c = c
    load_full_process_list-IsConsistent (pid ∷ pids) s c = elim (Option-cases (get_pid_info pid)) [
      | inl e ↦ rw e (load_full_process_list-IsConsistent pids s c)
      | inr (info, e) ↦
          rw e (load_full_process_list-IsConsistent pids _ (push_process-IsConsistent s pid info c))
    ]
