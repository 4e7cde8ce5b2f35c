-- ===== src/Common/Triples.antt =====
-- What a method leaves as it is, and what holds when it succeeds: rules by which methods are put
-- together.
use mathlib.Core.Path.{◌≡◌, refl, ◌∙◌}
use mathlib.Core.Logic.{inl, inr}
use mathlib.Core.Bool.{Bool, true, false}
use native.Mathlib.Omega.{arith}
use yagc.Common.Tests.{if◌then◌else◌}
use yagc.Common.Outcome.{Result, ok, err, Result-cases}
use yagc.Common.Exec.{Exec, ◌>>=◌, continue, logged, with_state, if_ok}

module _ {S : Type 0} where
  -- Whether it fails or not, the method leaves a part of the state as it is.
  pub record Keeps {A V : Type 0} (view : S → V) (m : Exec S A) : Type 0 where
    pub kept : (s : S) → view (m s).1 ≡ view s

  -- From a state with `P`, the method leads to `Q` if it succeeds.
  pub record Ensures {A : Type 0} (P : S → Type 0) (m : Exec S A) (Q : A → S → Type 0)
      : Type 0 where
    pub after : (s : S) → P s → (a : A) → (m s).0 ≡ ok a → Q a (m s).1

module _ {S A B V : Type 0} (view : S → V) (m : Exec S A) (next : A → Exec S B) where
  pub Keeps-bind : Keeps view m → ((a : A) → Keeps view (next a)) → Keeps view (m >>= next)
  Keeps-bind first later = record {
    kept = λ s. elim (Result-cases (m s).0) [
      | inl (a, done) ↦ rw (done, continue) ((later a).kept (m s).1 ∙ first.kept s)
      | inr (e, failed) ↦ rw (failed, continue) (first.kept s)
    ];
  }

module _ {S A V : Type 0} (view : S → V) where
  -- What does not change the state at all.
  pub Keeps-still : (r : S → Result A) → Keeps view (λ s. (r s, s))
  Keeps-still r = record { kept = λ s. refl }

  pub Keeps-if :
      (test : Bool) (m n : Exec S A)
      → Keeps view m
      → Keeps view n
      → Keeps view (if test then m else n)
  Keeps-if true m n left right = left
  Keeps-if false m n left right = right

  -- A method whose course depends on the state.
  pub Keeps-course : (m : S → Exec S A) → ((s : S) → Keeps view (m s)) → Keeps view (with_state m)
  Keeps-course m each = record { kept = λ s. (each s).kept s }

  pub Keeps-if_ok :
      {B : Type 0} (result : Result B) (m : B → Exec S A) (n : Exec S A)
      → ((value : B) → Keeps view (m value))
      → Keeps view n
      → Keeps view (if_ok result m n)
  Keeps-if_ok (ok value) m n left right = left value
  Keeps-if_ok (err e) m n left right = right

  pub Keeps-Ensures :
      (m : Exec S A) (v : V) → Keeps view m → Ensures (λ s. view s ≡ v) m (λ a s. view s ≡ v)
  Keeps-Ensures m v keeps = record { after = λ s h a done. keeps.kept s ∙ h }

pub Keeps-logged :
    {S V : Type 0} (view : S → V) (m : Exec S (Unit {0})) → Keeps view m → Keeps view (logged m)
Keeps-logged view m keeps = record { kept = keeps.kept }

module _ {S A B : Type 0} (P : S → Type 0) (m : Exec S A) (Q : A → S → Type 0) (next : A → Exec S B)
    (R : B → S → Type 0) where
  pub Ensures-bind : Ensures P m Q → ((a : A) → Ensures (Q a) (next a) R) → Ensures P (m >>= next) R
  Ensures-bind first later = record {
    after = λ s h b done. elim (Result-cases (m s).0) [
      | inl (a, began) ↦
          rw (began, continue)
            ((later a).after (m s).1 (first.after s h a began) b (rw (began, continue) at done))
      | inr (e, failed) ↦ absurd (ground (arith, failed, done))
    ];
  }

pub Ensures-any : {S A : Type 0} (P : S → Type 0) (m : Exec S A) → Ensures P m (λ a s. Unit {0})
Ensures-any P m = record { after = λ s h a done. tt }

-- A method keeps a property of the state, whatever it returns.
abbrev pub Preserves : {S A : Type 0} → (S → Type 0) → Exec S A → Type 0
Preserves {S} P m = (s : S) → P s → P (m s).1

module _ {S A B : Type 0} (P : S → Type 0) where
  continue-Preserves :
      (r : Result A) (next : A → Exec S B)
      → ((value : A) → Preserves P (next value))
      → Preserves P (continue r next)
  continue-Preserves (ok value) next k s p = k value s p
  continue-Preserves (err e) next k s p = p

  pub bind-Preserves :
      (first : Exec S A) (next : A → Exec S B)
      → Preserves P first
      → ((value : A) → Preserves P (next value))
      → Preserves P (first >>= next)
  bind-Preserves first next k later s p =
      continue-Preserves (first s).0 next later (first s).1 (k s p)
