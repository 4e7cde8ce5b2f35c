-- ===== src/Handler/Switch/Active.antt =====
-- The current profile is always one of the configuration's: no operation on profiles, whatever its
-- result, leaves the daemon at a profile that does not exist.
use yagc.Common.{
  ◌≡◌, refl, sym, ◌∙◌, ℕ, ◌<◌, Bool, true, false, Option, none, some, inl, inr, String, string_eq,
  nat_eq, arith, is_some, Option-cases, Result-cases, length,
}
use yagc.Common.Entries.{index_of}
use yagc.Common.Entries.Laws.{index_of-get_elem?, length-get_elem?}
use yagc.Crates.{Crates}
use yagc.Crates.Maps.{get-set_entry, get-shift_remove, get-swap_indices}
use yagc.Rules.{ProfileRule}
use yagc.Config.{Config, Profile}
use yagc.Handler.{Env, Handler}
use yagc.Handler.Switch.{
  ProfileBase, set_current_profile, set_profile, create_profile, delete_profile, move_profile,
  set_profile_rule, reset_config, is_current, base_profile,
}

module _ (X : Crates) (E : Env X) where
  abbrev pub is_profile : X.IndexMap String (Profile X) → Option String → Bool
  is_profile m none = true
  is_profile m (some name) = is_some (X.get m name)

  -- The current profile exists.
  abbrev pub has_current : Config X → Bool
  has_current c = is_profile c.profiles c.current_profile

  pub is_profile-set_entry :
      (m : X.IndexMap String (Profile X)) (name : String) (p : Profile X) (q : Option String)
      → is_profile m q ≡ true
      → is_profile (X.set_entry m name p) q ≡ true
  is_profile-set_entry m name p none v = refl
  is_profile-set_entry m name p (some q) v = ground (arith, get-set_entry X m name q p)

  is_profile-shift_remove :
      (m : X.IndexMap String (Profile X)) (name : String) (q : Option String)
      → is_current q name ≡ false
      → is_profile m q ≡ true
      → is_profile (X.shift_remove m name) q ≡ true
  unfolding is_current
  is_profile-shift_remove m name none other v = refl
  is_profile-shift_remove m name (some q) other v =
      ground
        (arith, get-shift_remove X m name q, string_eq.test_iff name q, string_eq.test_iff q name)

  is_profile-swap_indices :
      (m : X.IndexMap String (Profile X)) (i j : ℕ) (q : Option String)
      → i < length (X.iter m)
      → j < length (X.iter m)
      → is_profile m q ≡ true
      → is_profile (X.swap_indices m i j) q ≡ true
  is_profile-swap_indices m i j none hi hj v = refl
  is_profile-swap_indices m i j (some q) hi hj v = elim (Option-cases (X.get m q)) [
    | inl gone ↦ absurd (ground arith)
    | inr (p, there) ↦ get-swap_indices X m i j q hi hj there
  ]

  pub set_current_profile-has_current :
      (name : Option String) (h : Handler X E)
      → has_current h.config ≡ true
      → has_current (set_current_profile X E name h).1.config ≡ true
  unfolding set_current_profile
  set_current_profile-has_current name h v = ground arith

  pub create_profile-has_current :
      (name : String) (base : ProfileBase) (h : Handler X E)
      → has_current h.config ≡ true
      → has_current (create_profile X E name base h).1.config ≡ true
  unfolding create_profile
  create_profile-has_current name base h v = elim (Result-cases (base_profile X E h.config base)) [
    | inl (p, e) ↦
        ground (arith, is_profile-set_entry h.config.profiles name p h.config.current_profile)
    | inr (x, e) ↦ ground arith
  ]

  pub delete_profile-has_current :
      (name : String) (h : Handler X E)
      → has_current h.config ≡ true
      → has_current (delete_profile X E name h).1.config ≡ true
  unfolding delete_profile
  delete_profile-has_current name h v = ground (
    arith,
    is_profile-shift_remove h.config.profiles name h.config.current_profile,
    is_profile-shift_remove h.config.profiles name none,
  )

  pub set_profile-has_current :
      (name : Option String) (auto_switch : Bool) (h : Handler X E)
      → has_current h.config ≡ true
      → has_current (set_profile X E name auto_switch h).1.config ≡ true
  unfolding set_profile
  set_profile-has_current name true h v = ground arith
  set_profile-has_current name false h v = ground arith

  pub set_profile_rule-has_current :
      (name : String) (rule : Option ProfileRule) (h : Handler X E)
      → has_current h.config ≡ true
      → has_current (set_profile_rule X E name rule h).1.config ≡ true
  unfolding set_profile_rule
  set_profile_rule-has_current name rule h v = elim (Option-cases (X.get h.config.profiles name)) [
    | inl gone ↦ ground arith
    | inr (p, there) ↦ ground (
      arith,
      is_profile-set_entry h.config.profiles name (record p { rule = rule })
          h.config.current_profile,
    )
  ]

  pub move_profile-has_current :
      (name : String) (new_position : ℕ) (h : Handler X E)
      → has_current h.config ≡ true
      → has_current (move_profile X E name new_position h).1.config ≡ true
  unfolding move_profile
  move_profile-has_current name new_position h v =
      elim (Option-cases (X.get_index_of h.config.profiles name)) [
        | inl gone ↦ ground arith
        | inr (i, at) ↦
            let listed : index_of (X.iter h.config.profiles) name ≡ some i =
              sym (X.get_index_of-iter h.config.profiles name) ∙ at in
            let (p, there) = index_of-get_elem? (X.iter h.config.profiles) name i listed in
            ground (
              arith,
              is_profile-swap_indices h.config.profiles i new_position h.config.current_profile
                  (length-get_elem? (X.iter h.config.profiles) i there),
            )
      ]

  pub reset_config-has_current :
      (h : Handler X E) → has_current (reset_config X E h).1.config ≡ true
  unfolding reset_config
  reset_config-has_current h = ground arith
