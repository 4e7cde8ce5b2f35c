-- ===== src/Rules/Choice.antt =====
-- In a consistent state a rule matches exactly if a process fits it, and the profile that is
-- chosen is the first one with a rule that matches.
use yagc.Common.{
  ◌≡◌, refl, sym, ap, ◌∙◌, inl, inr, ◌↔◌, ℤ, Bool, true, false, Option, none, some, List, [], ◌∷◌,
  ◌++◌, String, string_eq, int_eq, arith, Option-cases, Bool-cases, eq_self,
}
use yagc.Common.Entries.{lookup}
use yagc.Common.Members.{any-member, member-any, member}
use yagc.Crates.{Crates}
use yagc.Watcher.{ProcessInfo, ProfileWatcherState}
use yagc.Watcher.Consistent.{IsConsistent}
use yagc.Rules.{
  ProfileRule, process, gamemode, cmdline_contains, pid_passes, process_rule_matches, game_passes,
  gamemode_rule_matches, profile_rule_matches, evaluate_current_profile,
}

-- The filter on the command line, if the rule has one.
abbrev pub PassesArgs : Option String → ProcessInfo → Type 0
PassesArgs none info = ◌≡◌ {A = Bool} true true
PassesArgs (some args_filter) info = cmdline_contains info args_filter ≡ true

module _ (X : Crates) where
  -- A process of the list has the rule's name, and its command line passes the filter.
  abbrev pub Fits : ProfileWatcherState X → String → Option String → ℤ → ProcessInfo → Type 0
  Fits s name args pid info =
      (X.get s.process_list pid ≡ some info) × (info.name ≡ name) × PassesArgs args info

  -- What a rule asks for, stated of the processes and the games alone.
  abbrev pub Demands : ProfileWatcherState X → ProfileRule → Type 0
  Demands s (process rule) = (pid : ℤ) × (info : ProcessInfo) × Fits s rule.name rule.args pid info
  Demands s (gamemode none) = X.is_empty_set s.gamemode_games ≡ false
  Demands s (gamemode (some rule)) =
      (pid : ℤ) × (info : ProcessInfo) × Fits s rule.name rule.args pid info
      × (X.contains s.gamemode_games pid ≡ true)

  module _ (s : ProfileWatcherState X) (c : IsConsistent X s) where
    listed_process :
        (name : String) (pids : List ℤ) (pid : ℤ)
        → lookup s.process_names_map name ≡ some pids
        → member pids pid ≡ true
        → (info : ProcessInfo) × (X.get s.process_list pid ≡ some info) × (info.name ≡ name)
    listed_process name pids pid e m = elim (Option-cases (X.get s.process_list pid)) [
      | inl gone ↦ absurd (ground (arith, c.indexed name pid))
      | inr (info, there) ↦
          (info, there, ground (arith, c.indexed name pid, string_eq.test_iff info.name name))
    ]

    process_listed :
        (name : String) (pid : ℤ) (info : ProcessInfo)
        → X.get s.process_list pid ≡ some info
        → info.name ≡ name
        → (pids : List ℤ) × (lookup s.process_names_map name ≡ some pids) × (member pids pid ≡ true)
    unfolding member
    process_listed name pid info there same =
        elim (Option-cases (lookup s.process_names_map name)) [
          | inl gone ↦
              absurd (ground (arith, c.indexed name pid, string_eq.test_iff info.name name))
          | inr (pids, e) ↦
              (pids, e, ground (arith, c.indexed name pid, string_eq.test_iff info.name name))
        ]

    -- A filter on the command line, read at a process that is listed.
    pid_passes-PassesArgs :
        (args_filter : String) (pid : ℤ) (info : ProcessInfo)
        → X.get s.process_list pid ≡ some info
        → pid_passes X s args_filter pid ≡ cmdline_contains info args_filter
    unfolding pid_passes
    pid_passes-PassesArgs args_filter pid info e = rw (e, pid_passes)

    process_rule_sound_at :
        (name : String) (args : Option String) (pids : List ℤ)
        → lookup s.process_names_map name ≡ some pids
        → process_rule_matches X s (some pids) args ≡ true
        → (pid : ℤ) × (info : ProcessInfo) × Fits s name args pid info
    unfolding process_rule_matches member
    process_rule_sound_at name none [] e h = absurd (ground (arith, c.full name []))
    process_rule_sound_at name none (pid ∷ pids) e h =
        let (info, there, same) = listed_process name (pid ∷ pids) pid e (rw (eq_self pid)) in
        (pid, info, (there, same, refl))
    process_rule_sound_at name (some args_filter) pids e h =
        let (pid, m, passes) = any-member (pid_passes X s args_filter) pids h in
        let (info, there, same) = listed_process name pids pid e m in
        (pid, info, (there, same, sym (pid_passes-PassesArgs args_filter pid info there) ∙ passes))

    process_rule_complete_at :
        (args : Option String) (pids : List ℤ) (pid : ℤ) (info : ProcessInfo)
        → member pids pid ≡ true
        → X.get s.process_list pid ≡ some info
        → PassesArgs args info
        → process_rule_matches X s (some pids) args ≡ true
    unfolding process_rule_matches
    process_rule_complete_at none pids pid info m there passes = refl
    process_rule_complete_at (some args_filter) pids pid info m there passes =
        member-any (pid_passes X s args_filter) pids pid m
          (pid_passes-PassesArgs args_filter pid info there ∙ passes)

    game_passes_args :
        (args : Option String) (pid : ℤ) (info : ProcessInfo)
        → X.get s.process_list pid ≡ some info
        → game_passes X s args pid ≡ true
        → PassesArgs args info
    unfolding game_passes
    game_passes_args none pid info there h = refl
    game_passes_args (some args_filter) pid info there h =
        ground (arith, pid_passes-PassesArgs args_filter pid info there)

    game_passes_game :
        (args : Option String) (pid : ℤ)
        → game_passes X s args pid ≡ true
        → X.contains s.gamemode_games pid ≡ true
    unfolding game_passes
    game_passes_game none pid h = h
    game_passes_game (some args_filter) pid h = ground arith

    game_passes_of :
        (args : Option String) (pid : ℤ) (info : ProcessInfo)
        → X.get s.process_list pid ≡ some info
        → PassesArgs args info
        → X.contains s.gamemode_games pid ≡ true
        → game_passes X s args pid ≡ true
    unfolding game_passes
    game_passes_of none pid info there passes game = game
    game_passes_of (some args_filter) pid info there passes game =
        ground (arith, pid_passes-PassesArgs args_filter pid info there)

    process_rule_sound :
        (name : String) (args : Option String)
        → process_rule_matches X s (lookup s.process_names_map name) args ≡ true
        → (pid : ℤ) × (info : ProcessInfo) × Fits s name args pid info
    unfolding process_rule_matches
    process_rule_sound name args h = elim (Option-cases (lookup s.process_names_map name)) [
      | inl gone ↦ absurd (ground arith)
      | inr (pids, e) ↦ process_rule_sound_at name args pids e (rw e at h)
    ]

    process_rule_complete :
        (name : String) (args : Option String) (pid : ℤ) (info : ProcessInfo)
        → Fits s name args pid info
        → process_rule_matches X s (lookup s.process_names_map name) args ≡ true
    unfolding process_rule_matches
    process_rule_complete name args pid info (there, same, passes) =
        let (pids, e, m) = process_listed name pid info there same in
        rw e (process_rule_complete_at args pids pid info m there passes)

    game_rule_sound :
        (name : String) (args : Option String)
        → gamemode_rule_matches X s (lookup s.process_names_map name) args ≡ true
        → (pid : ℤ) × (info : ProcessInfo) × Fits s name args pid info
          × (X.contains s.gamemode_games pid ≡ true)
    unfolding gamemode_rule_matches
    game_rule_sound name args h = elim (Option-cases (lookup s.process_names_map name)) [
      | inl gone ↦ absurd (ground arith)
      | inr (pids, e) ↦
          let (pid, m, passes) = any-member (game_passes X s args) pids (rw e at h) in
          let (info, there, same) = listed_process name pids pid e m in
          (
            pid,
            info,
            (there, same, game_passes_args args pid info there passes),
            game_passes_game args pid passes,
          )
    ]

    game_rule_complete :
        (name : String) (args : Option String) (pid : ℤ) (info : ProcessInfo)
        → Fits s name args pid info
        → X.contains s.gamemode_games pid ≡ true
        → gamemode_rule_matches X s (lookup s.process_names_map name) args ≡ true
    unfolding gamemode_rule_matches
    game_rule_complete name args pid info (there, same, passes) game =
        let (pids, e, m) = process_listed name pid info there same in
        rw e (
          member-any (game_passes X s args) pids pid m
            (game_passes_of args pid info there passes game))

    -- In a consistent state a rule matches exactly if the processes and the games satisfy what it
    -- demands: for a rule on a process, that a listed process has its name and passes its filter on
    -- the command line; for games, that one is registered, or that such a process is one.
    pub profile_rule_matches_iff :
        (rule : ProfileRule) → (profile_rule_matches X s rule ≡ true) ↔ Demands s rule
    unfolding profile_rule_matches
    profile_rule_matches_iff (process rule) = (
      process_rule_sound rule.name rule.args,
      λ (pid, info, fits). process_rule_complete rule.name rule.args pid info fits,
    )
    profile_rule_matches_iff (gamemode none) = (λ h. ground arith, λ h. rw h)
    profile_rule_matches_iff (gamemode (some rule)) = (
      game_rule_sound rule.name rule.args,
      λ (pid, info, fits, game). game_rule_complete rule.name rule.args pid info fits game,
    )

module _ (X : Crates) (s : ProfileWatcherState X) where
  -- No rule of the list matches.
  abbrev pub NoneMatch : List (String × ProfileRule) → Type 0
  NoneMatch [] = ◌≡◌ {A = Bool} true true
  NoneMatch ((name, rule) ∷ rules) = (profile_rule_matches X s rule ≡ false) × NoneMatch rules

  -- The profile that the rules choose is that of the first rule that matches: its rule matches,
  -- and no rule before it does.
  pub evaluate_current_profile-first :
      (rules : List (String × ProfileRule)) {name : String}
      → evaluate_current_profile X s rules ≡ some name
      → (before : List (String × ProfileRule)) × (rule : ProfileRule) × (after : List
          (String × ProfileRule))
        × (rules ≡ before ++ (name, rule) ∷ after)
        × NoneMatch before
        × (profile_rule_matches X s rule ≡ true)
  unfolding evaluate_current_profile
  evaluate_current_profile-first [] h = cc
  evaluate_current_profile-first ((n, r) ∷ rules) {name} h =
      elim (Bool-cases (profile_rule_matches X s r)) [
        | inl now ↦ ([], r, rules, ground arith, refl, now)
        | inr later ↦
            let (before, rule, after, e, unmatched, good) =
              evaluate_current_profile-first rules (rw later at h) in
            ((n, r) ∷ before, rule, after, ap (λ l. (n, r) ∷ l) e, (later, unmatched), good)
      ]

  -- The default profile is chosen exactly if no rule matches.
  pub evaluate_current_profile-none :
      (rules : List (String × ProfileRule))
      → (evaluate_current_profile X s rules ≡ none) ↔ NoneMatch rules
  unfolding evaluate_current_profile
  evaluate_current_profile-none [] = (λ _. refl, λ _. refl)
  evaluate_current_profile-none ((n, r) ∷ rules) =
      let (to, from) = evaluate_current_profile-none rules in
      elim (Bool-cases (profile_rule_matches X s r)) [
        | inl now ↦ (λ h. absurd (ground arith), λ h. absurd (ground arith))
        | inr later ↦ (λ h. (later, to (rw later at h)), λ h. rw later (from h.1))
      ]
