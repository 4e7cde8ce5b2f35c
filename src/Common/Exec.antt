-- ===== src/Common/Exec.antt =====
-- Methods that change a state and may return an error. What was changed before an error stays
-- changed, so the state comes back beside the error too.
use yagc.Common.Outcome.{Result, ok, err, Error}

abbrev pub Exec : Type 0 → Type 0 → Type 0
Exec S A = S → Result A × S

module _ {S A : Type 0} where
  abbrev pub pure : A → Exec S A
  pure a s = (ok a, s)

  abbrev pub raise : Error → Exec S A
  raise e s = (err e, s)

  abbrev pub lift : Result A → Exec S A
  lift r s = (r, s)

  abbrev pub gets : (S → A) → Exec S A
  gets f s = (ok (f s), s)

-- `if let Err(err) = … { error!(…) }`: an error is logged, and the method goes on.
abbrev pub logged : {S : Type 0} → Exec S (Unit {0}) → Exec S (Unit {0})
logged m s = (ok tt, (m s).1)

abbrev pub modify : {S : Type 0} → (S → S) → Exec S (Unit {0})
modify f s = (ok tt, f s)

module _ {S A B : Type 0} where
  abbrev pub continue : Result A → (A → Exec S B) → Exec S B
  continue (ok a) f s = f a s
  continue (err e) f s = (err e, s)

  infixl 5 ◌>>=◌ ◌>>◌
  abbrev pub ◌>>=◌ : Exec S A → (A → Exec S B) → Exec S B
  ◌>>=◌ m f s = continue (m s).0 f (m s).1

  abbrev pub ◌>>◌ : Exec S A → Exec S B → Exec S B
  ◌>>◌ m n = m >>= λ _. n

module _ {S A : Type 0} where
  -- A method whose course depends on the state.
  abbrev pub with_state : (S → Exec S A) → Exec S A
  with_state m s = m s s

  -- `if let Ok(value) = result { … } else { … }`
  abbrev pub if_ok : {B : Type 0} → Result B → (B → Exec S A) → Exec S A → Exec S A
  if_ok (ok value) m n = m value
  if_ok (err e) m n = n
