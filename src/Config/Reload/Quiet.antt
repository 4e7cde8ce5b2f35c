-- ===== src/Config/Reload/Quiet.antt =====
-- The configuration is loaded only when its file has been quiet for the whole interval.
use yagc.Common.{
  ℕ, ◌+◌, ◌≤◌, true, false, ◌≡◌, ◌⊎◌, inl, inr, Option, none, some, List, [], ◌∷◌, leb, Result,
  Bool-cases, arith,
}
use yagc.Config.Reload.{EventKind, config_reload_interval, is_change, set_timer, reloads}

-- Each time is a bound or later.
pub data AllFrom (bound : ℕ) : List ℕ → Type 0 where
  none_from : AllFrom bound []
  one_from :
      {time : ℕ} {times : List ℕ}
      → bound ≤ time
      → AllFrom bound times
      → AllFrom bound (time ∷ times)

-- A change at `now` comes after a loading, or the whole interval before it.
pub data IsQuiet (now : ℕ) : List ℕ → Type 0 where
  none_loaded : IsQuiet now []
  one_loaded :
      {time : ℕ} {times : List ℕ}
      → (time ≤ now) ⊎ (now + config_reload_interval ≤ time)
      → IsQuiet now times
      → IsQuiet now (time ∷ times)

-- The events come in the order of their times, from a time on.
pub data IsOrdered : ℕ → List (ℕ × Result EventKind) → Type 0 where
  none_ordered : {start : ℕ} → IsOrdered start []
  one_ordered :
      {start now : ℕ} {event : Result EventKind} {events : List (ℕ × Result EventKind)}
      → start ≤ now
      → IsOrdered now events
      → IsOrdered start ((now, event) ∷ events)

-- All changes are at their distance from all loadings.
pub data AllQuiet (times : List ℕ) : List (ℕ × Result EventKind) → Type 0 where
  none_quiet : AllQuiet times []
  change_quiet :
      {now : ℕ} {event : Result EventKind} {events : List (ℕ × Result EventKind)}
      → IsQuiet now times
      → AllQuiet times events
      → AllQuiet times ((now, event) ∷ events)
  other_quiet :
      {now : ℕ} {event : Result EventKind} {events : List (ℕ × Result EventKind)}
      → is_change event ≡ false
      → AllQuiet times events
      → AllQuiet times ((now, event) ∷ events)

weaken : (a b : ℕ) (times : List ℕ) → b ≤ a → AllFrom a times → AllFrom b times
weaken a b [] le none_from = none_from
weaken a b (t ∷ times) le (one_from h rest) = one_from (omega arith) (weaken a b times le rest)

AllFrom-IsQuiet :
    (now : ℕ) (times : List ℕ) → AllFrom (now + config_reload_interval) times → IsQuiet now times
AllFrom-IsQuiet now [] none_from = none_loaded
AllFrom-IsQuiet now (t ∷ times) (one_from h rest) =
    one_loaded (inr h) (AllFrom-IsQuiet now times rest)

-- What the timer promises at a time: nothing is loaded before.
abbrev bound : ℕ → Option ℕ → ℕ
bound now none = now + config_reload_interval
bound now (some deadline) = deadline

set_timer-none :
    (last_saved now : ℕ) (event : Result EventKind)
    → bound now (set_timer last_saved now none event) ≡ now + config_reload_interval
unfolding set_timer
set_timer-none last_saved now event = ground arith

set_timer-some :
    (last_saved now deadline : ℕ) (event : Result EventKind)
    → deadline ≤ now + config_reload_interval
    → (deadline ≤ bound now (set_timer last_saved now (some deadline) event))
      × (bound now (set_timer last_saved now (some deadline) event) ≤ now + config_reload_interval)
unfolding set_timer
set_timer-some last_saved now deadline event le = elim (Bool-cases (is_change event)) [
  | inl change ↦ rw (change) (le, omega arith)
  | inr other ↦ rw (other) (omega arith, le)
]

-- What is left after a time has passed: a timer that has fired, or the events from there on.
reloads-AllFrom :
    (saved : ℕ → ℕ) (start : ℕ) (timer : Option ℕ) (events : List (ℕ × Result EventKind))
    → IsOrdered start events
    → bound start timer ≤ start + config_reload_interval
    → AllFrom (bound start timer) (reloads saved timer events)
unfolding reloads
reloads-AllFrom saved start none [] none_ordered le = none_from
reloads-AllFrom saved start (some d) [] none_ordered le = one_from (omega arith) none_from
reloads-AllFrom saved start none ((now, event) ∷ events) (one_ordered h later) le =
    let timer = set_timer (saved now) now none event in
    let at = set_timer-none (saved now) now event in
    weaken (bound now timer) (start + config_reload_interval) (reloads saved timer events)
      (omega (arith, at, h)) (reloads-AllFrom saved now timer events later (omega (arith, at)))
reloads-AllFrom saved start (some d) ((now, event) ∷ events) (one_ordered h later) le =
    elim (Bool-cases (leb d now)) [
      | inl over ↦
          let timer = set_timer (saved now) now none event in
          let at = set_timer-none (saved now) now event in
          rw (over) (
            one_from (omega arith) (
              weaken (bound now timer) d (reloads saved timer events) (omega (arith, at, le, h))
                (reloads-AllFrom saved now timer events later (omega (arith, at)))))
      | inr waits ↦
          let timer = set_timer (saved now) now (some d) event in
          let (early, at) = set_timer-some (saved now) now d event (omega (arith, le, h)) in
          rw (waits) (
            weaken (bound now timer) d (reloads saved timer events) early
              (reloads-AllFrom saved now timer events later at))
    ]

quiet_event :
    (times : List ℕ) (now : ℕ) (event : Result EventKind) (events : List (ℕ × Result EventKind))
    → (is_change event ≡ true → IsQuiet now times)
    → AllQuiet times events
    → AllQuiet times ((now, event) ∷ events)
quiet_event times now event events quiet later = elim (Bool-cases (is_change event)) [
  | inl change ↦ change_quiet (quiet change) later
  | inr other ↦ other_quiet other later
]

-- A loading before all events.
AllQuiet-before :
    (time start : ℕ) (times : List ℕ) (events : List (ℕ × Result EventKind))
    → IsOrdered start events
    → time ≤ start
    → AllQuiet times events
    → AllQuiet (time ∷ times) events
AllQuiet-before time start times [] ordered le none_quiet = none_quiet
AllQuiet-before time start times ((now, event) ∷ events) (one_ordered h later) le
      (change_quiet quiet rest) =
    change_quiet (one_loaded (inl (omega arith)) quiet)
      (AllQuiet-before time now times events later (omega arith) rest)
AllQuiet-before time start times ((now, event) ∷ events) (one_ordered h later) le
      (other_quiet other rest) =
    other_quiet other (AllQuiet-before time now times events later (omega arith) rest)

timed-AllQuiet :
    (saved : ℕ → ℕ) (start : ℕ) (timer : Option ℕ) (events : List (ℕ × Result EventKind))
    → IsOrdered start events
    → bound start timer ≤ start + config_reload_interval
    → AllQuiet (reloads saved timer events) events
unfolding reloads
timed-AllQuiet saved start timer [] ordered le = none_quiet
timed-AllQuiet saved start none ((now, event) ∷ events) (one_ordered h later) le =
    let timer = set_timer (saved now) now none event in
    let at = set_timer-none (saved now) now event in
    quiet_event (reloads saved timer events) now event events
      (λ change. AllFrom-IsQuiet now (reloads saved timer events) (
        weaken (bound now timer) (now + config_reload_interval) (reloads saved timer events)
          (omega (arith, at)) (reloads-AllFrom saved now timer events later (omega (arith, at)))))
      (timed-AllQuiet saved now timer events later (omega (arith, at)))
timed-AllQuiet saved start (some d) ((now, event) ∷ events) (one_ordered h later) le =
    elim (Bool-cases (leb d now)) [
      | inl over ↦
          let timer = set_timer (saved now) now none event in
          let at = set_timer-none (saved now) now event in
          let times = reloads saved timer events in
          let fires : d ≤ now = ground (arith, over) in
          rw (over) (
            quiet_event (d ∷ times) now event events
              (λ change. one_loaded (inl fires) (
                AllFrom-IsQuiet now times (
                  weaken (bound now timer) (now + config_reload_interval) times (omega (arith, at))
                    (reloads-AllFrom saved now timer events later (omega (arith, at))))))
              (AllQuiet-before d now times events later fires
                (timed-AllQuiet saved now timer events later (omega (arith, at)))))
      | inr waits ↦
          let timer = set_timer (saved now) now (some d) event in
          let (early, at) = set_timer-some (saved now) now d event (omega (arith, le, h)) in
          let times = reloads saved timer events in
          rw (waits) (
            quiet_event times now event events
              (λ change. AllFrom-IsQuiet now times (
                weaken (bound now timer) (now + config_reload_interval) times
                  (rw (change, set_timer) (omega arith))
                  (reloads-AllFrom saved now timer events later at)))
              (timed-AllQuiet saved now timer events later at))
    ]

-- However changes of the file come, as long as they are listed in the order of their times, the
-- configuration is loaded only when no change came during the interval before: each change is
-- after a loading, or the whole interval before it.
pub reloads-AllQuiet :
    (saved : ℕ → ℕ) (start : ℕ) (events : List (ℕ × Result EventKind))
    → IsOrdered start events
    → AllQuiet (reloads saved none events) events
reloads-AllQuiet saved start events ordered =
    timed-AllQuiet saved start none events ordered (omega arith)
