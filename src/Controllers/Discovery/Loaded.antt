-- ===== src/Controllers/Discovery/Loaded.antt =====
-- The controllers that were loaded: under their own ids, one for each card of which one can be made.
use yagc.Common.{
  Bool, true, ◌≡◌, refl, sym, ◌∙◌, ap, some, is_some, List, [], ◌∷◌, Result, ok, err, if◌then◌else◌,
  ◌==◌, Bool-cases, Option-cases, inl, inr, arith, eq_of_test, eq_self,
}
use yagc.Common.Entries.{lookup}
use yagc.Common.Entries.Laws.{lookup-insert}
use yagc.Common.Text.{Text}
use yagc.Common.Text.Laws.{text_eq}
use yagc.Controllers.Uevent.{build_id}
use yagc.Controllers.Uevent.Init.{System, init_controller}
use yagc.Controllers.Discovery.{is_card, add_controller, load_entries, load_controllers}

-- The name is one of the readable entries.
pub data IsListed (name : Text) : List (Result Text) → Type 0 where
  first_listed : {rest : List (Result Text)} → IsListed name (ok name ∷ rest)
  later_listed :
      {entry : Result Text} {rest : List (Result Text)}
      → IsListed name rest
      → IsListed name (entry ∷ rest)

module _ (S : System) (device_path : Text → Text) where
  -- Each controller stands under its id.
  pub record IsKeyed (l : List (Text × S.Controller)) : Type 0 where
    pub keyed :
        (id : Text) (c : S.Controller) → lookup l id ≡ some c → build_id (S.controller_info c) ≡ id

  add_controller-IsKeyed :
      (r : Result S.Controller) (l : List (Text × S.Controller))
      → IsKeyed l
      → IsKeyed (add_controller S r l)
  unfolding add_controller
  add_controller-IsKeyed (err e) l k = k
  add_controller-IsKeyed (ok controller) l k = record {
    keyed = λ id c h.
        let key = build_id (S.controller_info controller) in
        let found = rw (lookup-insert l key id controller) at h in
        elim (Bool-cases (key == id)) [
          | inl same ↦
              let this : controller ≡ c = ground (arith, rw (same) at found) in
              ap (λ x. build_id (S.controller_info x)) (sym this) ∙ eq_of_test key id same
          | inr other ↦ k.keyed id c (rw (other) at found)
        ];
  }

  unfoldable has_id : Text → List (Text × S.Controller) → Bool
  has_id id l = is_some (lookup l id)

  add_controller-keeps_ids :
      (r : Result S.Controller) (l : List (Text × S.Controller)) (id : Text)
      → has_id id l ≡ true
      → has_id id (add_controller S r l) ≡ true
  unfolding add_controller has_id
  add_controller-keeps_ids (err e) l id h = h
  add_controller-keeps_ids (ok controller) l id h =
      rw (lookup-insert l (build_id (S.controller_info controller)) id controller) (ground arith)

  -- The card's controller has its place in the list.
  add_controller-adds :
      (r : Result S.Controller) (l : List (Text × S.Controller)) {c : S.Controller}
      → r ≡ ok c
      → has_id (build_id (S.controller_info c)) (add_controller S r l) ≡ true
  unfolding add_controller has_id
  add_controller-adds r l {c} h =
      let id = build_id (S.controller_info c) in
      rw (h, add_controller, lookup-insert l id id c, eq_self id) refl

  none_in : (id : Text) (c : S.Controller) → lookup {K = Text} {V = S.Controller} [] id ≡ some c → ⊥
  unfolding lookup
  none_in id c h = ground (arith, h)

  load_entries-IsKeyed :
      (entries : List (Result Text)) (l : List (Text × S.Controller))
      {loaded : List (Text × S.Controller)}
      → IsKeyed l
      → load_entries S device_path entries l ≡ ok loaded
      → IsKeyed loaded
  unfolding load_entries
  load_entries-IsKeyed [] l {loaded} k h =
      let same : l ≡ loaded = ground (arith, h) in rw (← same) k
  load_entries-IsKeyed (err e ∷ rest) l k h = absurd (ground (arith, h))
  load_entries-IsKeyed (ok name ∷ rest) l k h = elim (Bool-cases (is_card name)) [
    | inl card ↦
        load_entries-IsKeyed rest (add_controller S (init_controller S (device_path name)) l)
          (add_controller-IsKeyed (init_controller S (device_path name)) l k) (rw (card) at h)
    | inr other ↦ load_entries-IsKeyed rest l k (rw (other) at h)
  ]

  load_entries-keeps_ids :
      (entries : List (Result Text)) (l : List (Text × S.Controller)) (id : Text)
      {loaded : List (Text × S.Controller)}
      → has_id id l ≡ true
      → load_entries S device_path entries l ≡ ok loaded
      → has_id id loaded ≡ true
  unfolding load_entries
  load_entries-keeps_ids [] l id {loaded} there h =
      let same : l ≡ loaded = ground (arith, h) in rw (← same) there
  load_entries-keeps_ids (err e ∷ rest) l id there h = absurd (ground (arith, h))
  load_entries-keeps_ids (ok name ∷ rest) l id there h = elim (Bool-cases (is_card name)) [
    | inl card ↦
        load_entries-keeps_ids rest (add_controller S (init_controller S (device_path name)) l) id
          (add_controller-keeps_ids (init_controller S (device_path name)) l id there)
          (rw (card) at h)
    | inr other ↦ load_entries-keeps_ids rest l id there (rw (other) at h)
  ]

  load_entries-adds :
      (name : Text) (entries : List (Result Text)) (l : List (Text × S.Controller))
      {loaded : List (Text × S.Controller)} {c : S.Controller}
      → IsListed name entries
      → is_card name ≡ true
      → init_controller S (device_path name) ≡ ok c
      → load_entries S device_path entries l ≡ ok loaded
      → has_id (build_id (S.controller_info c)) loaded ≡ true
  unfolding load_entries
  load_entries-adds name (ok _ ∷ rest) l {loaded} {c} first_listed card made h =
      load_entries-keeps_ids rest (add_controller S (init_controller S (device_path name)) l)
        (build_id (S.controller_info c))
        (add_controller-adds (init_controller S (device_path name)) l made) (rw (card) at h)
  load_entries-adds name [] l there card made h = elim there [ ]
  load_entries-adds name (err e ∷ rest) l (later_listed there) card made h =
      absurd (ground (arith, h))
  load_entries-adds name (ok other ∷ rest) l (later_listed there) card made h =
      load_entries-adds name rest
        (if is_card other then add_controller S (init_controller S (device_path other)) l else l)
        there card made h

  -- When the controllers are loaded, each one stands under its own id, and for every card of which
  -- a controller can be made there is one with that id.
  pub load_controllers-IsKeyed :
      (entries : List (Result Text)) (loaded : List (Text × S.Controller)) (name : Text)
      (c : S.Controller)
      → load_controllers S device_path (ok entries) ≡ ok loaded
      → IsListed name entries
      → is_card name ≡ true
      → init_controller S (device_path name) ≡ ok c
      → IsKeyed loaded
        × (same : S.Controller) × (lookup loaded (build_id (S.controller_info c)) ≡ some same)
        × (build_id (S.controller_info same) ≡ build_id (S.controller_info c))
  unfolding load_controllers has_id
  load_controllers-IsKeyed entries loaded name c h there card made =
      let keyed =
        load_entries-IsKeyed entries []
          (record { keyed = λ id c none_there. absurd (none_in id c none_there) }) h in
      elim (Option-cases (lookup loaded (build_id (S.controller_info c)))) [
        | inl gone ↦
            absurd (ground (arith, gone, load_entries-adds name entries [] there card made h))
        | inr (same, found) ↦
            (keyed, same, found, keyed.keyed (build_id (S.controller_info c)) same found)
      ]
