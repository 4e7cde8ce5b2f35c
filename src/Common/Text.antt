-- ===== src/Common/Text.antt =====
-- Texts whose characters matter, as lists of code points, and what the standard library's `str` does
-- with them.
pub mod Laws
use Prim.Native.Char.{code}
use Prim.Native.Nat.{ℕ}
use Prim.Native.String.{String}
use mathlib.Core.Bool.{Bool, true, false, ◌&&◌, ◌||◌}
use mathlib.Core.Option.{Option, none, some}
use mathlib.Core.List.{List, [], ◌∷◌}
use yagc.Common.Tests.{if◌then◌else◌, nat_beq}

abbrev pub Text : Type 0
Text = List ℕ

abbrev pub codes : String → Text
codes String.[] = []
codes (String.◌∷◌ c s) = code c ∷ codes s

unfoldable pub text_beq : Text → Text → Bool
text_beq [] [] = true
text_beq (c ∷ s) (d ∷ t) = nat_beq c d && text_beq s t
text_beq _ _ = false

abbrev pub newline : ℕ
newline = 10

abbrev pub carriage_return : ℕ
carriage_return = 13

-- The first line gets one more character.
unfoldable pub push_char : ℕ → List Text → List Text
push_char c [] = (c ∷ []) ∷ []
push_char c (line ∷ rest) = (c ∷ line) ∷ rest

unfoldable pub starts_newline : Text → Bool
starts_newline [] = false
starts_newline (c ∷ s) = nat_beq c newline

-- `str::lines`: a line ends with a line feed or with a carriage return before it, and the last one
-- may lack both.
unfoldable pub lines : Text → List Text
unfolding push_char starts_newline
lines [] = []
lines (c ∷ s) =
    let rest = lines s in
    if nat_beq c newline
    then [] ∷ rest
    else (if nat_beq c carriage_return && starts_newline s then rest else push_char c rest)

abbrev pub before_first : ℕ → Option (Text × Text) → Option (Text × Text)
before_first c none = none
before_first c (some (left, right)) = some (c ∷ left, right)

-- `str::split_once`, for a separator of one character.
unfoldable pub split_once : ℕ → Text → Option (Text × Text)
split_once separator [] = none
split_once separator (c ∷ s) =
    let rest = split_once separator s in
    if nat_beq c separator then some ([], s) else before_first c rest

-- `str::starts_with`, `str::ends_with` and `str::contains`, for texts.
unfoldable pub starts_with : Text → Text → Bool
starts_with [] s = true
starts_with (c ∷ start) [] = false
starts_with (c ∷ start) (d ∷ s) = nat_beq c d && starts_with start s

unfoldable pub ends_with : Text → Text → Bool
ends_with end [] = text_beq end []
ends_with end (c ∷ s) = text_beq end (c ∷ s) || ends_with end s

unfoldable pub contains : Text → Text → Bool
unfolding starts_with
contains part [] = starts_with part []
contains part (c ∷ s) = starts_with part (c ∷ s) || contains part s
