-- ===== src/Controllers/Nvidia/Leads.antt =====
-- Methods that keep track of the offsets, and where they lead when they succeed: the rules by which
-- such methods are put together.
use yagc.Common.{ℤ, ◌≡◌, nat_eq, int_eq, ok, arith, Result-cases, inl, inr}
use yagc.Common.Exec.{Exec, ◌>>=◌}
use yagc.Crates.{Crates}
use yagc.Controllers.Nvidia.{Clock, Nvml, NvidiaGpuController}
use yagc.Controllers.Nvidia.Tracked.{KeepsOffsets, IsTracked, SameOffsets, SameOffsets-IsTracked}
use yagc.Controllers.Nvidia.Unmoved.{Unmoved}

module _ (X : Crates) (N : Nvml) (L : KeepsOffsets N) where
  -- A method keeps track of the offsets, and leads to such as a goal says where it succeeds.
  pub record Leads {A : Type 0} (m : Exec (NvidiaGpuController X N) A) (s : NvidiaGpuController X N)
      (goal : Clock → N.Pstate → ℤ → Type 0) : Type 0 where
    pub keeps : IsTracked X N L (m s).1
    pub leads :
        (a : A)
        → (m s).0 ≡ ok a
        → (k : Clock) (q : N.Pstate) → goal k q (L.offset (m s).1.driver k q)

  pub Leads-bind :
      {A B : Type 0} (m : Exec (NvidiaGpuController X N) A)
      (next : A → Exec (NvidiaGpuController X N) B) (s : NvidiaGpuController X N)
      (middle goal : Clock → N.Pstate → ℤ → Type 0)
      → Leads m s middle
      → ((a : A) (t : NvidiaGpuController X N)
          → IsTracked X N L t
          → ((k : Clock) (q : N.Pstate) → middle k q (L.offset t.driver k q))
          → Leads (next a) t goal)
      → Leads (m >>= next) s goal
  Leads-bind {A} {B} m next s middle goal first later = elim (Result-cases (m s).0) [
    | inl (a, done) ↦
        let l = later a (m s).1 first.keeps (first.leads a done) in
        record { keeps = rw (done) l.keeps; leads = λ b h. rw (done) (l.leads b (rw (done) at h)) }
    | inr (e, failed) ↦ record {
      keeps = rw (failed) first.keeps;
      leads = λ b h. absurd (ground (arith, failed));
    }
  ]

  -- What does not concern the offsets leaves them as they are.
  pub Leads-same :
      {A : Type 0} (m : Exec (NvidiaGpuController X N) A) (s : NvidiaGpuController X N)
      → SameOffsets X N L s (m s).1
      → IsTracked X N L s
      → Leads m s (λ k q v. v ≡ L.offset s.driver k q)
  Leads-same m s same tracked = record {
    keeps = SameOffsets-IsTracked X N L s (m s).1 same tracked;
    leads = λ a h. same.in_force;
  }

  pub Leads-retarget :
      {A : Type 0} (m : Exec (NvidiaGpuController X N) A) (s : NvidiaGpuController X N)
      (f g : Clock → N.Pstate → ℤ → Type 0)
      → Leads m s f
      → ((k : Clock) (q : N.Pstate) (v : ℤ) → f k q v → g k q v)
      → Leads m s g
  Leads-retarget m s f g l same = record {
    keeps = l.keeps;
    leads = λ a h k q. same k q (L.offset (m s).1.driver k q) (l.leads a h k q);
  }

  -- What is left to do after the offsets, and what comes before them.
  pub Leads-before :
      {A : Type 0} (m : Exec (NvidiaGpuController X N) A)
      (next : A → Exec (NvidiaGpuController X N) (Unit {0})) (s : NvidiaGpuController X N)
      (goal : Clock → N.Pstate → ℤ → Type 0)
      → Unmoved X N L m
      → IsTracked X N L s
      → ((a : A) (t : NvidiaGpuController X N)
          → IsTracked X N L t
          → ((k : Clock) (q : N.Pstate) → L.offset t.driver k q ≡ L.offset s.driver k q)
          → Leads (next a) t goal)
      → Leads (m >>= next) s goal
  Leads-before m next s goal still tracked later =
      Leads-bind m next s (λ k q v. v ≡ L.offset s.driver k q) goal
        (Leads-same m s (still.unmoved s) tracked) (λ a t t_tracked t_at. later a t t_tracked t_at)
