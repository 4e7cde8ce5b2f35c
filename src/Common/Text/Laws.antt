-- ===== src/Common/Text/Laws.antt =====
-- Texts are equal where the test says so, lines come back from what they were joined to, and a
-- separator is found where it was put.
use Prim.Native.Nat.{ℕ}
use mathlib.Core.Path.{◌≡◌, refl}
use mathlib.Core.Logic.{◌↔◌}
use mathlib.Core.Bool.{Bool, true, false, ◌||◌}
use mathlib.Core.Option.{some}
use mathlib.Core.List.{[], ◌∷◌, ◌++◌}
use native.Mathlib.Omega.{arith}
use yagc.Common.Tests.{if◌then◌else◌, nat_beq}
use yagc.Common.Equality.{Eq}
use yagc.Common.Text.{Text, text_beq, newline, carriage_return, push_char, lines, split_once}

pub text_beq_iff : (s t : Text) → (text_beq s t ≡ true) ↔ (s ≡ t)
unfolding text_beq
text_beq_iff [] [] = ground arith
text_beq_iff [] (d ∷ t) = ground arith
text_beq_iff (c ∷ s) [] = ground arith
text_beq_iff (c ∷ s) (d ∷ t) = ground (arith, text_beq_iff s t)

instance abbrev pub text_eq : Eq Text
text_eq = record { test = text_beq; test_iff = text_beq_iff }

-- Whether a character stands in a text.
unfoldable pub has_char : ℕ → Text → Bool
has_char c [] = false
has_char c (d ∷ s) = nat_beq c d || has_char c s

-- A line of text: without line feeds and carriage returns.
unfoldable pub is_line : Text → Bool
is_line [] = true
is_line (c ∷ s) = if nat_beq c newline || nat_beq c carriage_return then false else is_line s

pub lines-join :
    (line rest : Text) → is_line line ≡ true → lines (line ++ newline ∷ rest) ≡ line ∷ lines rest
unfolding lines is_line push_char
lines-join [] rest h = refl
lines-join (c ∷ line) rest h = ground (arith, lines-join line rest)

pub split_once-join :
    (separator : ℕ) (left right : Text)
    → has_char separator left ≡ false
    → split_once separator (left ++ separator ∷ right) ≡ some (left, right)
unfolding split_once has_char
split_once-join separator [] right h = ground arith
split_once-join separator (c ∷ left) right h = ground (arith, split_once-join separator left right)
