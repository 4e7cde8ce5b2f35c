-- ===== src/Controllers/Nvidia/Apply.antt =====
-- How the configured offsets are applied, one after the other.
use yagc.Common.{
  ℕ, ℤ, ◌≡◌, refl, ◌∙◌, none, some, List, [], ◌∷◌, ◌&&◌, ◌==◌, nat_eq, int_eq, if◌then◌else◌,
  unwrap_or, arith, Bool-cases, Option-cases, Result-cases, inl, inr, test-eq-false, ap,
}
use yagc.Common.Entries.{lookup}
use yagc.Crates.{Crates}
use yagc.Controllers.Nvidia.{
  Clock, same_clock, Nvml, NvidiaGpuController, apply_offset, apply_offsets,
}
use yagc.Controllers.Nvidia.Tracked.{KeepsOffsets, IsTracked, SameOffsets-IsTracked, remember-Leads}
use yagc.Controllers.Nvidia.Leads.{Leads, Leads-bind, Leads-retarget}

-- A list of entries with each number once.
pub data IsDistinct : List (ℕ × ℤ) → Type 0 where
  none_listed : IsDistinct []
  one_more :
      {n : ℕ} {v : ℤ} {rest : List (ℕ × ℤ)}
      → lookup rest n ≡ none
      → IsDistinct rest
      → IsDistinct ((n, v) ∷ rest)

module _ (X : Crates) (N : Nvml) (L : KeepsOffsets N) where
  apply_offset-Leads :
      (c : Clock) (p : N.Pstate) (v : ℤ) (s : NvidiaGpuController X N)
      → IsTracked X N L s
      → Leads X N L (apply_offset X N c (some p) v) s (λ k q w.
        w ≡ (if same_clock k c && N.pstate_eq.test p q then v else L.offset s.driver k q))
  unfolding apply_offset
  apply_offset-Leads c p v s tracked = elim (Result-cases (N.set_clock_offset c p v s.driver).0) [
    | inl (u, done) ↦
        let after = remember-Leads X N L c p v s tracked done in
        record { keeps = rw (done) after.0; leads = λ a h k q. rw (done) (after.1 k q) }
    | inr (e, failed) ↦ record {
      keeps = rw (failed) (
          SameOffsets-IsTracked X N L s
            (record s { driver = (N.set_clock_offset c p v s.driver).1 })
            (record { in_force = λ k q. L.fails c k p q v s.driver failed; remembered = refl })
            tracked);
      leads = λ a h. absurd (ground (arith, failed));
    }
  ]

  -- A state that the number of a configured offset does not name is an error before any change.
  apply_offset-invalid :
      (c : Clock) (v : ℤ) (s : NvidiaGpuController X N) (goal : Clock → N.Pstate → ℤ → Type 0)
      → IsTracked X N L s
      → Leads X N L (apply_offset X N c none v) s goal
  unfolding apply_offset
  apply_offset-invalid c v s goal tracked = record {
    keeps = tracked;
    leads = λ a h. absurd (ground arith);
  }

  same_number : (p q : N.Pstate) (n : ℕ) → n ≡ N.number p → (n == N.number q) ≡ N.pstate_eq.test p q
  same_number p q n numbered = elim (Bool-cases (N.pstate_eq.test p q)) [
    | inl this ↦ rw (this) (
        (nat_eq.test_iff n (N.number q)).1
          (numbered ∙ ap N.number ((N.pstate_eq.test_iff p q).0 this)))
    | inr other ↦ rw (other) (
        test-eq-false n (N.number q) λ e.
          let here = (N.pstate_of_iff n p).1 numbered in
          let there = (N.pstate_of_iff n q).1 e in
          ground (arith, here, there, other, N.pstate_eq.test_iff p q))
  ]

  round-Leads :
      (c : Clock) (n : ℕ) (v : ℤ) (s : NvidiaGpuController X N)
      → IsTracked X N L s
      → Leads X N L
          (apply_offset X N c (N.pstate_of n) v)
          s
          (λ k q w. w ≡ (if same_clock k c && (n == N.number q) then v else L.offset s.driver k q))
  round-Leads c n v s tracked = elim (Option-cases (N.pstate_of n)) [
    | inl unknown ↦ rw (unknown) (apply_offset-invalid c v s _ tracked)
    | inr (p, known) ↦ rw (known) (
        Leads-retarget X N L (apply_offset X N c (some p) v) s _ _
          (apply_offset-Leads c p v s tracked)
          (λ k q w h. rw (same_number p q n ((N.pstate_of_iff n p).0 known)) h))
  ]

  configured :
      (c : Clock) (n : ℕ) (v : ℤ) (rest : List (ℕ × ℤ)) (k : Clock) (q : N.Pstate) (old : ℤ)
      {now : ℤ}
      → lookup rest n ≡ none
      → now ≡ (if same_clock k c && (n == N.number q) then v else old)
      → (if same_clock k c then unwrap_or (lookup rest (N.number q)) now else now)
        ≡ (if same_clock k c then unwrap_or (lookup ((n, v) ∷ rest) (N.number q)) old else old)
  unfolding lookup
  configured c n v rest k q old fresh at = elim (Bool-cases (n == N.number q)) [
    | inl this ↦
        let here : lookup rest (N.number q) ≡ none =
          rw (← (nat_eq.test_iff n (N.number q)).0 this) fresh in
        ground (arith, here, this, at)
    | inr other ↦ ground (arith, other, at)
  ]

  pub apply_offsets-Leads :
      (c : Clock) (l : List (ℕ × ℤ)) (s : NvidiaGpuController X N)
      → IsDistinct l
      → IsTracked X N L s
      → Leads X N L (apply_offsets X N c l) s (λ k q w. w ≡ (
          if same_clock k c
          then unwrap_or (lookup l (N.number q)) (L.offset s.driver k q)
          else L.offset s.driver k q))
  unfolding apply_offsets lookup
  apply_offsets-Leads c [] s distinct tracked = record {
    keeps = tracked;
    leads = λ a h k q. ground arith;
  }
  apply_offsets-Leads c ((n, v) ∷ rest) s (one_more fresh distinct) tracked =
      Leads-bind X N L (apply_offset X N c (N.pstate_of n) v) (λ _. apply_offsets X N c rest) s
        (λ k q w. w ≡ (if same_clock k c && (n == N.number q) then v else L.offset s.driver k q))
        (λ k q w. w ≡ (
          if same_clock k c
          then unwrap_or (lookup ((n, v) ∷ rest) (N.number q)) (L.offset s.driver k q)
          else L.offset s.driver k q))
        (round-Leads c n v s tracked)
        λ _ t t_tracked t_at.
          Leads-retarget X N L (apply_offsets X N c rest) t _ _
            (apply_offsets-Leads c rest t distinct t_tracked)
            (λ k q w h. h ∙ configured c n v rest k q (L.offset s.driver k q) fresh (t_at k q))
