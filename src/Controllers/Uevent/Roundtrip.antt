-- ===== src/Controllers/Uevent/Roundtrip.antt =====
-- What the kernel writes into `uevent` comes back from the parser.
use yagc.Common.{
  true, false, ◌≡◌, refl, ◌∙◌, Option, none, some, List, [], ◌∷◌, ◌++◌, ◌==◌, if◌then◌else◌,
  Bool-cases, inl, inr, eq_of_test,
}
use yagc.Common.Entries.{insert, lookup}
use yagc.Common.Entries.Laws.{lookup-insert}
use yagc.Common.Text.{Text, newline, lines, split_once}
use yagc.Common.Text.Laws.{text_eq, has_char, is_line, lines-join, split_once-join}
use yagc.Controllers.Uevent.{equals_sign, collect, parse_uevent}

-- One line for each entry, `KEY=VALUE`.
unfoldable pub print_uevent : List (Text × Text) → Text
print_uevent [] = []
print_uevent ((key, value) ∷ rest) = (key ++ equals_sign ∷ value) ++ newline ∷ print_uevent rest

-- Keys without a separator, entries within a line, and each key once.
pub data IsPrintable : List (Text × Text) → Type 0 where
  none_printed : IsPrintable []
  one_printed :
      {key value : Text} {rest : List (Text × Text)}
      → has_char equals_sign key ≡ false
      → is_line (key ++ equals_sign ∷ value) ≡ true
      → lookup rest key ≡ none
      → IsPrintable rest
      → IsPrintable ((key, value) ∷ rest)

abbrev or_else : Option Text → Option Text → Option Text
or_else none b = b
or_else (some a) b = some a

collect-cons :
    (line : Text) (entries : List (Text × Text)) (rest : List Text) {key value : Text}
    → split_once equals_sign line ≡ some (key, value)
    → collect entries (line ∷ rest) ≡ collect (insert entries key value) rest
unfolding collect
collect-cons line entries rest split = rw (split, collect) refl

lookup-nil :
    (entries : List (Text × Text)) (k : Text)
    → lookup (collect entries (lines [])) k
      ≡ or_else (lookup {K = Text} {V = Text} [] k) (lookup entries k)
unfolding collect lines lookup
lookup-nil entries k = refl

lookup-cons :
    (key value : Text) (rest : List (Text × Text)) (k : Text)
    → lookup ((key, value) ∷ rest) k ≡ (if key == k then some value else lookup rest k)
unfolding lookup
lookup-cons key value rest k = refl

or_else-none : (o : Option Text) → or_else o none ≡ o
or_else-none none = refl
or_else-none (some a) = refl

-- An entry is seen behind those that come later, of which none has its key.
later_first :
    (key value : Text) (rest entries : List (Text × Text)) (k : Text)
    → lookup rest key ≡ none
    → or_else (lookup rest k) (lookup (insert entries key value) k)
      ≡ or_else (lookup ((key, value) ∷ rest) k) (lookup entries k)
later_first key value rest entries k fresh =
    rw (lookup-insert entries key k value, lookup-cons key value rest k)
      (elim (Bool-cases (key == k)) [
        | inl same ↦
            let here : lookup rest k ≡ none = rw (← eq_of_test key k same) fresh in rw (same, here)
        | inr other ↦ rw (other)
      ])

lookup-collect :
    (l entries : List (Text × Text)) (k : Text)
    → IsPrintable l
    → lookup (collect entries (lines (print_uevent l))) k ≡ or_else (lookup l k) (lookup entries k)
unfolding print_uevent
lookup-collect [] entries k none_printed = lookup-nil entries k
lookup-collect ((key, value) ∷ rest) entries k (one_printed plain within fresh later) =
    rw
      (
        lines-join (key ++ equals_sign ∷ value) (print_uevent rest) within,
        collect-cons (key ++ equals_sign ∷ value) entries (lines (print_uevent rest))
            (split_once-join equals_sign key value plain),
      )
      (lookup-collect rest (insert entries key value) k later
        ∙ later_first key value rest entries k fresh)

-- Every entry that is printed can be looked up after parsing, and no other can: the keys have no
-- `=`, keys and values have no line ends, and no key is there twice.
pub parse_uevent-print_uevent :
    (l : List (Text × Text)) (k : Text)
    → IsPrintable l
    → lookup (parse_uevent (print_uevent l)) k ≡ lookup l k
unfolding parse_uevent lookup
parse_uevent-print_uevent l k printable =
    lookup-collect l [] k printable ∙ or_else-none (lookup l k)
