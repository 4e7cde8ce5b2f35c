-- ===== src/Common/Members.antt =====
-- A `HashSet` of the standard library, as the list of its members, and a test for some member.
use yagc.Common.Tests.{if◌then◌else◌, Bool-cases}
use yagc.Common.Equality.{Eq, ◌==◌, eq_self, eq_of_test}
use mathlib.Core.Path.{◌≡◌, refl}
use mathlib.Core.Logic.{inl, inr}
use mathlib.Core.Bool.{Bool, true, false, ◌||◌}
use mathlib.Core.List.{List, [], ◌∷◌}
use native.Mathlib.Omega.{arith}

module _ {A : Type 0} where
  abbrev pub any : (A → Bool) → List A → Bool
  any p [] = false
  any p (x ∷ xs) = p x || any p xs

module _ {A : Type 0} ⦃e : Eq A⦄ where
  unfoldable pub member : List A → A → Bool
  member [] a = false
  member (x ∷ xs) a = if x == a then true else member xs a

  unfoldable pub add : List A → A → List A
  unfolding member
  add xs a = if member xs a then xs else a ∷ xs

  unfoldable pub discard : List A → A → List A
  discard [] a = []
  discard (x ∷ xs) a = let rest = discard xs a in if x == a then rest else x ∷ rest

  pub member-nil : (a : A) → member [] a ≡ false
  unfolding member
  member-nil a = refl

  pub member-add :
      (xs : List A) (a b : A) → member (add xs a) b ≡ (if a == b then true else member xs b)
  unfolding add
  member-add xs a b = ground (arith, e.test_iff a b)

  pub member-discard :
      (xs : List A) (a b : A) → member (discard xs a) b ≡ (if a == b then false else member xs b)
  unfolding member discard
  member-discard [] a b = ground arith
  member-discard (x ∷ xs) a b =
      ground (arith, member-discard xs a b, e.test_iff x a, e.test_iff x b, e.test_iff a b)

  -- A loop that returns at the first member with a property finds one exactly if there is one.
  pub any-member :
      (p : A → Bool) (xs : List A) → any p xs ≡ true → (a : A) × (member xs a ≡ true) × (p a ≡ true)
  unfolding member
  any-member p [] h = cc
  any-member p (x ∷ xs) h = elim (Bool-cases (p x)) [
    | inl now ↦ (x, rw (eq_self x), now)
    | inr later ↦ let (a, inside, good) = any-member p xs (rw later at h) in (a, ground arith, good)
  ]

  pub member-any :
      (p : A → Bool) (xs : List A) (a : A) → member xs a ≡ true → p a ≡ true → any p xs ≡ true
  unfolding member
  member-any p [] a m h = cc
  member-any p (x ∷ xs) a m h = elim (Bool-cases (x == a)) [
    | inl here ↦ rw (eq_of_test x a here, h)
    | inr there ↦ ground (arith, member-any p xs a (rw there at m) h)
  ]
