-- ===== src/Controllers/Nvidia/Forget.antt =====
-- How the reset of an offset in `cleanup_clocks` of nvidia.rs, and the forgetting after it, keep track
-- of the offsets in force.
use yagc.Common.{
  ℤ, pos, true, false, ◌≡◌, refl, ◌∙◌, ◌||◌, ◌&&◌, not, ◌==◌, nat_eq, int_eq, ok, err, Error,
  Option-cases, ◌⊎◌, arith, Bool-cases, inl, inr,
}
use yagc.Common.Entries.{lookup}
use yagc.Crates.{Crates}
use yagc.Controllers.Nvidia.{
  Clock, graphics, memory, same_clock, Nvml, NvidiaGpuController, forget, is_nonzero,
  reset_reported,
}
use yagc.Controllers.Nvidia.Tracked.{
  KeepsOffsets, same_clock_sound, IsTracked, IsLeft, lookup-forget, driver-forget,
}

module _ (X : Crates) (N : Nvml) (L : KeepsOffsets N) where
  pub reset_reported-remembered :
      (c : Clock) (p : N.Pstate) (v : ℤ) (s : NvidiaGpuController X N)
      → (reset_reported X N c p (ok v) s).1.last_applied_offsets ≡ s.last_applied_offsets
  unfolding reset_reported
  reset_reported-remembered c p v s = ground arith

  -- An offset was reset where the driver reports it or remembers it, and is not forgotten yet.
  pub record IsReset (c : Clock) (p : N.Pstate) (s t : NvidiaGpuController X N) : Type 0 where
    pub this_left : IsLeft X N L (L.answered c p) (L.offset s.driver c p) (L.offset t.driver c p)
    pub others_kept :
        (k : Clock) (q : N.Pstate)
        → (same_clock k c && N.pstate_eq.test p q) ≡ false
        → L.offset t.driver k q ≡ L.offset s.driver k q
    pub same_remembered : t.last_applied_offsets ≡ s.last_applied_offsets

  -- The one offset, and all others.
  this_or_other :
      (c k : Clock) (p q : N.Pstate)
      → ((k ≡ c) × (p ≡ q)) ⊎ ((same_clock k c && N.pstate_eq.test p q) ≡ false)
  this_or_other c k p q = elim (Bool-cases (same_clock k c && N.pstate_eq.test p q)) [
    | inl this ↦ inl (
      same_clock_sound k c (ground (arith, this)),
      (N.pstate_eq.test_iff p q).0 (ground (arith, this)),
    )
    | inr other ↦ inr other
  ]

  same_clock_refl : (c : Clock) → same_clock c c ≡ true
  unfolding same_clock
  same_clock_refl graphics = refl
  same_clock_refl memory = refl

  is_this : (c : Clock) (p : N.Pstate) → (same_clock c c && N.pstate_eq.test p p) ≡ true
  is_this c p = ground (arith, same_clock_refl c, N.pstate_eq.test_iff p p)

  pub IsReset-IsLeft :
      (c : Clock) (p : N.Pstate) (s t : NvidiaGpuController X N)
      → IsReset c p s t
      → (k : Clock) (q : N.Pstate)
      → IsLeft X N L
          (L.answered k q && (same_clock k c && N.pstate_eq.test p q))
          (L.offset s.driver k q)
          (L.offset t.driver k q)
  IsReset-IsLeft c p s t r k q = elim (this_or_other c k p q) [
    | inl (clocks, states) ↦
        rw (clocks, ← states)
          (elim r.this_left [
            | inl zero ↦ inl zero
            | inr (unanswered, kept) ↦ inr (ground (arith, unanswered), kept)
          ])
    | inr other ↦ inr (ground (arith, other), r.others_kept k q other)
  ]

  pub forget-IsTracked :
      (c : Clock) (p : N.Pstate) (s t : NvidiaGpuController X N)
      → IsReset c p s t
      → IsTracked X N L s
      → IsTracked X N L (forget X N c p t)
  forget-IsTracked c p s t r tracked = record {
    remembered = λ k q v h. elim (Bool-cases (same_clock k c && N.pstate_eq.test p q)) [
      | inl this ↦ absurd (ground (arith, this, h, lookup-forget X N L c k p q t))
      | inr other ↦
          let there = rw (lookup-forget X N L c k p q t, other, r.same_remembered) at h in
          driver-forget X N L c p t k q ∙ r.others_kept k q other ∙ tracked.remembered k q v there
    ];
    others = λ k q a h. elim (Bool-cases (same_clock k c && N.pstate_eq.test p q)) [
      | inl this ↦ driver-forget X N L c p t k q ∙ (elim (IsReset-IsLeft c p s t r k q) [
        | inl zero ↦ zero
        | inr (certain, kept) ↦ absurd (ground (arith, certain, this, a))
      ])
      | inr other ↦
          let there = rw (lookup-forget X N L c k p q t, other, r.same_remembered) at h in
          driver-forget X N L c p t k q ∙ r.others_kept k q other ∙ tracked.others k q a there
    ];
  }

  -- An offset that is not remembered as another than zero.
  not_remembered :
      (c : Clock) (p : N.Pstate) (s : NvidiaGpuController X N)
      → IsTracked X N L s
      → is_nonzero (lookup ⦃e = N.pstate_eq⦄ (s.last_applied_offsets c) p) ≡ false
      → IsLeft X N L (L.answered c p) (L.offset s.driver c p) (L.offset s.driver c p)
  unfolding is_nonzero
  not_remembered c p s tracked h =
      elim (Option-cases (lookup ⦃e = N.pstate_eq⦄ (s.last_applied_offsets c) p)) [
        | inl unknown ↦ elim (Bool-cases (L.answered c p)) [
          | inl answers ↦ inl (tracked.others c p answers unknown)
          | inr silent ↦ inr (silent, refl)
        ]
        | inr (v, known) ↦ inl (
            tracked.remembered c p v known
            ∙ (int_eq.test_iff v (pos 0)).0 (ground (arith, rw (known) at h)))
      ]

  -- The driver answers about an offset, and resetting it succeeds where it is tried.
  pub reset_reported-IsReset :
      (c : Clock) (p : N.Pstate) (v : ℤ) (s : NvidiaGpuController X N)
      → IsTracked X N L s
      → (reset_reported X N c p (ok v) s).0 ≡ ok tt
      → IsReset c p s (reset_reported X N c p (ok v) s).1
  unfolding reset_reported
  reset_reported-IsReset c p v s tracked h =
      elim (Bool-cases
        (not (v == pos 0) || is_nonzero (lookup ⦃e = N.pstate_eq⦄ (s.last_applied_offsets c) p))) [
          | inl resets ↦
              let done = rw (resets) at h in
              rw (resets) (record {
                this_left = inl (L.sets c c p p (pos 0) s.driver done ∙ rw (is_this c p) refl);
                others_kept = λ k q other. L.sets c k p q (pos 0) s.driver done ∙ rw (other) refl;
                same_remembered = refl;
              })
          | inr leaves ↦ rw (leaves) (record {
            this_left = not_remembered c p s tracked (ground (arith, leaves));
            others_kept = λ k q other. refl;
            same_remembered = refl;
          })
        ]

  -- The driver does not answer about it.
  pub unreported-IsReset :
      (c : Clock) (p : N.Pstate) (s : NvidiaGpuController X N) {e : Error}
      → N.clock_offset c p s.driver ≡ err e
      → IsReset c p s s
  unreported-IsReset c p s failed = record {
    this_left = elim (Bool-cases (L.answered c p)) [
      | inl answers ↦
          let (v, reported) = L.reports c p s.driver answers in
          absurd (ground (arith, reported, failed))
      | inr silent ↦ inr (silent, refl)
    ];
    others_kept = λ k q other. refl;
    same_remembered = refl;
  }

  pub reset_reported-failed :
      (c : Clock) (p : N.Pstate) (v : ℤ) (s : NvidiaGpuController X N) {e : Error}
      → (reset_reported X N c p (ok v) s).0 ≡ err e
      → (k : Clock) (q : N.Pstate)
      → L.offset (reset_reported X N c p (ok v) s).1.driver k q ≡ L.offset s.driver k q
  unfolding reset_reported
  reset_reported-failed c p v s h k q =
      elim (Bool-cases
        (not (v == pos 0) || is_nonzero (lookup ⦃e = N.pstate_eq⦄ (s.last_applied_offsets c) p))) [
          | inl resets ↦ rw (resets) (L.fails c k p q (pos 0) s.driver (rw (resets) at h))
          | inr leaves ↦ rw (leaves) refl
        ]
