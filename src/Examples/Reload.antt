-- ===== src/Examples/Reload.antt =====
-- Changes of the configuration's file.
use yagc.Common.{ℕ, ◌≡◌, refl, none, List, [], ◌∷◌, Result, ok, err, index_out_of_bounds, arith}
use yagc.Config.Reload.{EventKind, modify_event, create_event, other_event, reloads}
use yagc.Config.Reload.Quiet.{IsOrdered, none_ordered, one_ordered, AllQuiet, reloads-AllQuiet}

-- Two changes that are written shortly after one another, another event, and a change later on.
abbrev changes : List (ℕ × Result EventKind)
changes =
    (5000, ok create_event)
    ∷ (5020, ok modify_event)
    ∷ (5030, err index_out_of_bounds)
    ∷ (5040, ok other_event)
    ∷ (9000, ok modify_event)
    ∷ []

changes-IsOrdered : IsOrdered 0 changes
changes-IsOrdered = one_ordered (omega arith) (
    one_ordered (omega arith) (
      one_ordered (omega arith)
        (one_ordered (omega arith) (one_ordered (omega arith) none_ordered))))

reloads-changes : reloads (λ now. 0) none changes ≡ 5070 ∷ 9050 ∷ []
unfolding reloads
reloads-changes = refl

reloads-AllQuiet_example : AllQuiet (reloads (λ now. 0) none changes) changes
reloads-AllQuiet_example = reloads-AllQuiet (λ now. 0) 0 changes changes-IsOrdered
