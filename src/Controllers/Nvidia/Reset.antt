-- ===== src/Controllers/Nvidia/Reset.antt =====
-- How `cleanup_clocks` resets the offsets that are in force.
use yagc.Common.{
  ℤ, Bool, false, ◌≡◌, refl, ◌∙◌, List, [], ◌∷◌, ◌&&◌, ◌||◌, nat_eq, int_eq, ok, arith, Bool-cases,
  Result-cases, inl, inr,
}
use yagc.Common.Exec.{◌>>◌}
use yagc.Common.Members.{member}
use yagc.Crates.{Crates}
use yagc.Controllers.Nvidia.{
  Clock, graphics, memory, same_clock, Nvml, NvidiaGpuController, reset_reported, reset_offset,
  reset_pstates, cleanup_supported, cleanup_clocks, forget,
}
use yagc.Controllers.Nvidia.Tracked.{
  KeepsOffsets, IsTracked, IsLeft, SameOffsets-IsTracked, driver-forget,
}
use yagc.Controllers.Nvidia.Forget.{
  IsReset, IsReset-IsLeft, forget-IsTracked, reset_reported-IsReset, unreported-IsReset,
  reset_reported-failed, reset_reported-remembered,
}
use yagc.Controllers.Nvidia.Leads.{Leads, Leads-bind, Leads-retarget}

module _ (X : Crates) (N : Nvml) (L : KeepsOffsets N) where
  -- Each offset is left as it was or zero, and zero where a test says so.
  abbrev pub Left :
      (Clock → N.Pstate → Bool) → NvidiaGpuController X N → Clock → N.Pstate → ℤ → Type 0
  Left certain s k q v = IsLeft X N L (certain k q) (L.offset s.driver k q) v

  -- One reset after another.
  IsLeft-trans :
      (a b c : Bool) (before middle after : ℤ)
      → (a || b) ≡ c
      → IsLeft X N L a before middle
      → IsLeft X N L b middle after
      → IsLeft X N L c before after
  IsLeft-trans a b c before middle after both first (inl zero) = inl zero
  IsLeft-trans a b c before middle after both (inl zero) (inr (unsure, kept)) = inl (kept ∙ zero)
  IsLeft-trans a b c before middle after both (inr (unsure, kept)) (inr (unsure', kept')) =
      inr (ground (arith, both, unsure, unsure'), kept' ∙ kept)

  abbrev this_one : Clock → N.Pstate → Clock → N.Pstate → Bool
  this_one c p k q = L.answered k q && (same_clock k c && N.pstate_eq.test p q)

  forgotten-Left :
      (c : Clock) (p : N.Pstate) (s t : NvidiaGpuController X N)
      → IsReset X N L c p s t
      → (k : Clock) (q : N.Pstate)
      → Left (this_one c p) s k q (L.offset (forget X N c p t).driver k q)
  forgotten-Left c p s t r k q =
      rw (driver-forget X N L c p t k q) (IsReset-IsLeft X N L c p s t r k q)

  reset_offset-Leads :
      (c : Clock) (p : N.Pstate) (s : NvidiaGpuController X N)
      → IsTracked X N L s
      → Leads X N L (reset_offset X N c p) s (Left (this_one c p) s)
  unfolding reset_offset
  reset_offset-Leads c p s tracked = elim (Result-cases (N.clock_offset c p s.driver)) [
    | inr (e, silent) ↦
        let reset = unreported-IsReset X N L c p s silent in
        record {
          keeps = rw (silent, reset_reported) (forget-IsTracked X N L c p s s reset tracked);
          leads = λ a h k q. rw (silent, reset_reported) (forgotten-Left c p s s reset k q);
        }
    | inl (v, reported) ↦
        let t = (reset_reported X N c p (ok v) s).1 in
        elim (Result-cases (reset_reported X N c p (ok v) s).0) [
          | inl (u, done) ↦
              let reset = reset_reported-IsReset X N L c p v s tracked done in
              record {
                keeps = rw (reported, done) (forget-IsTracked X N L c p s t reset tracked);
                leads = λ a h k q. rw (reported, done) (forgotten-Left c p s t reset k q);
              }
          | inr (e, failed) ↦ record {
            keeps =
                rw (reported, failed)
                  (SameOffsets-IsTracked X N L s t
                    (record {
                      in_force = reset_reported-failed X N L c p v s failed;
                      remembered = reset_reported-remembered X N L c p v s;
                    })
                    tracked);
            leads = λ a h. absurd (ground (arith, failed, reported));
          }
        ]
  ]

  -- Both clocks of one state, one after the other.
  abbrev this_state : N.Pstate → Clock → N.Pstate → Bool
  this_state p k q = L.answered k q && N.pstate_eq.test p q

  both :
      (p : N.Pstate) (k : Clock) (q : N.Pstate)
      → (this_one graphics p k q || this_one memory p k q) ≡ this_state p k q
  unfolding same_clock
  both p graphics q = ground arith
  both p memory q = ground arith

  abbrev listed : List N.Pstate → Clock → N.Pstate → Bool
  listed ps k q = L.answered k q && member ⦃e = N.pstate_eq⦄ ps q

  more_listed :
      (p : N.Pstate) (ps : List N.Pstate) (k : Clock) (q : N.Pstate)
      → (this_state p k q || listed ps k q) ≡ listed (p ∷ ps) k q
  unfolding member
  more_listed p ps k q = ground arith

  none_listed : (k : Clock) (q : N.Pstate) → listed [] k q ≡ false
  unfolding member
  none_listed k q = ground arith

  reset_pstates-Leads :
      (ps : List N.Pstate) (s : NvidiaGpuController X N)
      → IsTracked X N L s
      → Leads X N L (reset_pstates X N ps) s (Left (listed ps) s)
  unfolding reset_pstates
  reset_pstates-Leads [] s tracked = record {
    keeps = tracked;
    leads = λ a h k q. inr (none_listed k q, refl);
  }
  reset_pstates-Leads (p ∷ ps) s tracked =
      Leads-bind X N L (reset_offset X N graphics p)
        (λ _. reset_offset X N memory p >> reset_pstates X N ps) s (Left (this_one graphics p) s)
        (Left (listed (p ∷ ps)) s) (reset_offset-Leads graphics p s tracked)
        λ _ t t_tracked t_at.
          Leads-bind X N L (reset_offset X N memory p) (λ _. reset_pstates X N ps) t
            (Left (this_state p) s) (Left (listed (p ∷ ps)) s)
            (Leads-retarget X N L (reset_offset X N memory p) t _ _
              (reset_offset-Leads memory p t t_tracked)
              (λ k q v. IsLeft-trans _ _ _ _ _ v (both p k q) (t_at k q)))
            λ _ u u_tracked u_at.
              Leads-retarget X N L (reset_pstates X N ps) u _ _ (reset_pstates-Leads ps u u_tracked)
                (λ k q v. IsLeft-trans _ _ _ _ _ v (more_listed p ps k q) (u_at k q))

  -- A state about which the driver always answers is among those it lists.
  all_listed :
      (ps : List N.Pstate) (s : NvidiaGpuController X N)
      → N.supported_performance_states s.driver ≡ ok ps
      → (k : Clock) (q : N.Pstate) → (listed ps k q || false) ≡ L.answered k q
  all_listed ps s given k q = elim (Bool-cases (L.answered k q)) [
    | inl answers ↦
        let (others, listing, there) = L.lists k q s.driver answers in
        let same : others ≡ ps = ground (arith, listing, given) in
        ground (arith, answers, rw (same) at there)
    | inr silent ↦ ground (arith, silent)
  ]

  pub cleanup_clocks-Leads :
      (s : NvidiaGpuController X N)
      → IsTracked X N L s
      → Leads X N L (cleanup_clocks X N) s (Left L.answered s)
  unfolding cleanup_clocks
  cleanup_clocks-Leads s tracked = elim (Result-cases (N.supported_performance_states s.driver)) [
    | inl (ps, given) ↦
        let all : Leads X N L (reset_pstates X N ps) s (Left L.answered s) =
          Leads-retarget X N L (reset_pstates X N ps) s _ _ (reset_pstates-Leads ps s tracked)
            (λ k q v h.
              IsLeft-trans _ _ _ _ v v (all_listed ps s given k q) h (inr (refl, refl))) in
        record {
          keeps = rw (given, cleanup_supported) all.keeps;
          leads = λ a h.
              rw (given, cleanup_supported) (all.leads a (rw (given, cleanup_supported) at h));
        }
    | inr (e, silent) ↦ record {
      keeps = rw (silent, cleanup_supported) tracked;
      leads = λ a h k q.
          rw (silent, cleanup_supported)
            (elim (Bool-cases (L.answered k q)) [
              | inl answers ↦
                  let (ps, listing, there) = L.lists k q s.driver answers in
                  absurd (ground (arith, listing, silent))
              | inr unanswered ↦ inr (unanswered, refl)
            ]);
    }
  ]
