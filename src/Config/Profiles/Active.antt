-- ===== src/Config/Profiles/Active.antt =====
-- A write through `gpus_mut` is what `gpus` reads afterwards, and no other profile sees it.
use yagc.Common.{
  ◌≡◌, refl, sym, ◌∙◌, Bool, true, false, Option, none, some, List, [], ◌∷◌, String, ◌==◌,
  string_eq, ok, arith, Bool-cases, if◌then◌else◌, Option-cases, inl, inr,
}
use mathlib.Core.List.{map}
use yagc.Common.Entries.{lookup, insert}
use yagc.Crates.{Crates}
use yagc.Rules.{ProfileRule}
use yagc.Crates.Maps.{get-set_entry}
use yagc.Config.{Gpu, Profile, Config}
use yagc.Config.Profiles.{gpus, gpus_of, with_gpus, with_gpus_of}

-- The default profile, `none`, is not among the named ones.
abbrev pub same_profile : Option String → Option String → Bool
same_profile none none = true
same_profile none (some b) = false
same_profile (some a) none = false
same_profile (some a) (some b) = a == b

module _ (X : Crates) where
  abbrev pub rules_of : List (String × Profile X) → List (String × Option ProfileRule)
  rules_of = map (λ (e : String × Profile X). let (name, p) = e in (name, p.rule))

  -- New GPUs of a profile leave its name, its place and its rule.
  rules_of-insert :
      (l : List (String × Profile X)) (name : String) (p q : Profile X)
      → lookup l name ≡ some p
      → q.rule ≡ p.rule
      → rules_of (insert l name q) ≡ rules_of l
  unfolding lookup insert
  rules_of-insert [] name p q there same = absurd (ground (arith, there))
  rules_of-insert ((other, r) ∷ l) name p q there same = elim (Bool-cases (other == name)) [
    | inl this ↦
        ground
          (arith, this, there, same, string_eq.test_iff other name, string_eq.test_iff name other)
    | inr not_this ↦ ground (
      arith,
      not_this,
      there,
      string_eq.test_iff other name,
      string_eq.test_iff name other,
      rules_of-insert l name p q,
    )
  ]

  -- The configuration after the GPUs of one profile were written: those of each profile, the rules,
  -- and everything else.
  pub record IsWritten (c d : Config X) (p : Option String) (n : X.IndexMap String (Gpu X))
      : Type 0 where
    pub reads :
        (q : Option String) → gpus_of X d q ≡ (if same_profile p q then ok n else gpus_of X c q)
    -- the names of the profiles in their order, with their rules
    pub rules : rules_of (X.iter d.profiles) ≡ rules_of (X.iter c.profiles)
    pub rest : record d { gpus = c.gpus; profiles = c.profiles } ≡ c

  with_gpus_of-IsWritten :
      (c : Config X) (p : Option String) {m : X.IndexMap String (Gpu X)}
      (n : X.IndexMap String (Gpu X))
      → gpus_of X c p ≡ ok m
      → (d : Config X) × (with_gpus_of X c p n ≡ ok d) × IsWritten c d p n
  unfolding gpus_of with_gpus_of
  with_gpus_of-IsWritten c none n e =
      (record c { gpus = n }, refl, record { reads = λ q. ground arith; rules = refl; rest = refl })
  with_gpus_of-IsWritten c (some name) n e = elim (Option-cases (X.get c.profiles name)) [
    | inl gone ↦ absurd (ground arith)
    | inr (p, there) ↦
        let q = record p { gpus = n } in
        (
          record c { profiles = X.set_entry c.profiles name q },
          rw (there, with_gpus_of),
          record {
            reads = λ o.
                elim o
                  as (λ o.
                    gpus_of X (record c { profiles = X.set_entry c.profiles name q }) o
                    ≡ (if same_profile (some name) o then ok n else gpus_of X c o)) [
                      | none ↦ refl
                      | some other ↦ ground (arith, get-set_entry X c.profiles name other q)
                    ];
            rules = rw (X.iter-set_entry c.profiles name q) (
                rules_of-insert (X.iter c.profiles) name p q
                  (sym (X.get-iter c.profiles name) ∙ there) refl);
            rest = refl;
          },
        )
  ]

  -- Where the current profile can be read it can be written: its GPUs are then those that were
  -- written, those of every other profile are as before, and so are the rules, the names and the
  -- order of the profiles and everything else in the configuration.
  pub with_gpus-IsWritten :
      (c : Config X) {m : X.IndexMap String (Gpu X)} (n : X.IndexMap String (Gpu X))
      → gpus X c ≡ ok m
      → (d : Config X) × (with_gpus X c n ≡ ok d) × IsWritten c d c.current_profile n
  unfolding gpus with_gpus
  with_gpus-IsWritten c n e = with_gpus_of-IsWritten c c.current_profile n e
