-- ===== src/Handler/Switch/Changes.antt =====
-- What each operation on profiles does to the profiles, the current profile and the watcher.
use yagc.Common.{
  ◌≡◌, sym, ◌∙◌, ℕ, ◌<◌, false, none, some, inl, inr, String, ◌==◌, string_eq, nat_eq, ok, err,
  arith, if◌then◌else◌, Option-cases, Result-cases, length, get_elem?, profile_not_found,
}
use yagc.Common.Entries.Laws.{index_of-get_elem?, length-get_elem?, get_elem?-swap}
use yagc.Crates.{Crates}
use yagc.Crates.Maps.{get-set_entry, get-shift_remove}
use yagc.Config.{Profile}
use yagc.Config.Profiles.{gpus, gpus_of}
use yagc.Handler.{Env, Handler, update, tell_watcher, stop_profile_watcher}
use yagc.Handler.Switch.{
  ProfileBase, set_profile, create_profile, delete_profile, move_profile, is_current, base_profile,
  set_profiles,
}

module _ (X : Crates) (E : Env X) where
  -- A request for a new profile that succeeds: the profile is what its base says, its name was free,
  -- all other profiles, the current one and the rest of the configuration are as before, and the
  -- watcher that runs is told to update.
  pub create_profile-ok :
      (name : String) (base : ProfileBase) (h : Handler X E)
      → (create_profile X E name base h).0 ≡ ok tt
      → (p : Profile X) × (base_profile X E h.config base ≡ ok p)
        × (X.get h.config.profiles name ≡ none)
        × ((other : String)
            → X.get (create_profile X E name base h).1.config.profiles other
              ≡ (if name == other then some p else X.get h.config.profiles other))
        × (set_profiles X E h.config.profiles (create_profile X E name base h).1.config ≡ h.config)
        × ((create_profile X E name base h).1.watcher_commands
            ≡ (tell_watcher X E update h).watcher_commands)
  unfolding create_profile tell_watcher
  create_profile-ok name base h e = elim (Result-cases (base_profile X E h.config base)) [
    | inl (p, ep) ↦ (
      p,
      ep,
      ground arith,
      λ other. ground (arith, get-set_entry X h.config.profiles name other p),
      ground arith,
      ground arith,
    )
    | inr (x, ex) ↦ absurd (ground arith)
  ]

  -- Whether or not the file can be written, a deleted profile is gone, the other profiles stay,
  -- and if it was the current one the default profile is current.
  pub delete_profile-gone :
      (name : String) (h : Handler X E)
      → ((other : String)
          → X.get (delete_profile X E name h).1.config.profiles other
            ≡ (if name == other then none else X.get h.config.profiles other))
        × ((delete_profile X E name h).1.config.current_profile
            ≡ (if is_current h.config.current_profile name then none else h.config.current_profile))
        × ((delete_profile X E name h).1.config.gpus ≡ h.config.gpus)
  unfolding delete_profile gpus gpus_of
  delete_profile-gone name h = (
    λ other. ground (arith, get-shift_remove X h.config.profiles name other),
    ground arith,
    ground arith,
  )

  -- A move that succeeds is within bounds, exchanges the profile with the one at the new position,
  -- and leaves all other positions.
  pub move_profile-exchanges :
      (name : String) (new_position : ℕ) (h : Handler X E)
      → (move_profile X E name new_position h).0 ≡ ok tt
      → (i : ℕ) × (p : Profile X) × (get_elem? (X.iter h.config.profiles) i ≡ some (name, p))
        × (new_position < length (X.iter h.config.profiles))
        × ((n : ℕ)
            → get_elem? (X.iter (move_profile X E name new_position h).1.config.profiles) n ≡ (
                if new_position == n
                then some (name, p)
                else if i == n
                then get_elem? (X.iter h.config.profiles) new_position
                else get_elem? (X.iter h.config.profiles) n))
  unfolding move_profile
  move_profile-exchanges name new_position h e =
      elim (Option-cases (X.get_index_of h.config.profiles name)) [
        | inl gone ↦ absurd (ground arith)
        | inr (i, at) ↦
            let l = X.iter h.config.profiles in
            let (p, there) =
              index_of-get_elem? l name i (sym (X.get_index_of-iter h.config.profiles name) ∙ at) in
            let inside : new_position < length l = ground arith in
            (
              i,
              p,
              there,
              inside,
              λ n. ground (
                arith,
                X.iter-swap_indices h.config.profiles i new_position,
                get_elem?-swap l i new_position n (length-get_elem? l i there) inside,
              ),
            )
      ]

  -- A request to switch by hand to a profile that does not exist stops the automatic switching
  -- (the watcher is told to stop) and fails, but the configuration still says that profiles switch
  -- automatically, and nothing is written.
  pub set_profile_unknown :
      (name : String) (h : Handler X E)
      → X.get h.config.profiles name ≡ none
      → ((set_profile X E (some name) false h).0 ≡ err (profile_not_found name))
        × ((set_profile X E (some name) false h).1 ≡ stop_profile_watcher X E h)
        × ((set_profile X E (some name) false h).1.config.auto_switch_profiles
            ≡ h.config.auto_switch_profiles)
  unfolding set_profile
  set_profile_unknown name h gone = (ground arith, ground arith, ground arith)
