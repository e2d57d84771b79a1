-- ===== src/Layout/Resizing.antt =====
-- Lemmas about walkPath and Resize of internal/layout/layout.go.
use mathlib.Core.List.{append-nil, reverse, reverse-reverse, reverse-cons, append_assoc}
use ng_mux.Prelude.{
  ◌≡◌, inl, inr, refl, Bool, true, false, List, [], ◌∷◌, ◌++◌, Option, none, some, arith, contains,
  Bool-cases, Option-cases, sym, subst, ◌≢◌, ◌∙◌, All, All-append, not,
}
use ng_mux.Prelude.Int.{ℤ}
use ng_mux.Layout.{
  Float64, Axis, axis_eq, along, Rect, PaneId, Node, leaf, split, Result, ok, err, pane_not_found,
  no_split, bad_direction, no_room, last_pane,
}
use ng_mux.Layout.Geometry.{split_rect}
use ng_mux.Layout.Tree.{TreePath, in_a, in_b, below, first_some, panes, find, set_ratio_at}
use ng_mux.Layout.Panes.{find-contains}
use ng_mux.Layout.Resize.{
  PathStep, under, first_path, address, walk_path, new_ratio, resize_up, resize,
}

panes-set_ratio_at :
    {F : Type 0} (p : TreePath) (q' : F) (n : Node F) → panes (set_ratio_at p q' n) ≡ panes n
unfolding panes set_ratio_at
panes-set_ratio_at [] q' (leaf x) = refl
panes-set_ratio_at [] q' (split o q a b) = refl
panes-set_ratio_at (s ∷ p) q' (leaf x) = refl
panes-set_ratio_at (in_a ∷ p) q' (split o q a b) = rw (panes-set_ratio_at p q' a)
panes-set_ratio_at (in_b ∷ p) q' (split o q a b) = rw (panes-set_ratio_at p q' b)

abbrev address_of : {F : Type 0} → Option (List (PathStep F)) → Option TreePath
address_of none = none
address_of (some steps) = some (address steps)

address_of-under :
    {F : Type 0} (s : PathStep F) (o : Option (List (PathStep F)))
    → address_of (under s o) ≡ below s.side (address_of o)
address_of-under s none = refl
address_of-under s (some p) = refl

address_of-first_path :
    {F : Type 0} (p q : Option (List (PathStep F)))
    → address_of (first_path p q) ≡ first_some (address_of p) (address_of q)
address_of-first_path none q = refl
address_of-first_path (some p) q = refl

All-reverse {ℓ κ} : {A : Type ℓ} (P : A → Type κ) (xs : List A) → All P xs → All P (reverse xs)
All-reverse P [] h = tt
All-reverse P (x ∷ xs) h =
    rw (reverse-cons x xs) (All-append P (reverse xs) (x ∷ []) (All-reverse P xs h.1) (h.0, tt))

abbrev pub is_missing : {A : Type 0} → Result A → Bool
is_missing (err pane_not_found) = true
is_missing _ = false

module _ (f : Float64) where
  open f use {F, of_int, lt}

  -- walkPath goes where find goes.
  pub walk_path-find :
      (n : Node F) (r : Rect) (t : PaneId) → address_of (walk_path f n r t) ≡ find n t
  unfolding walk_path find
  walk_path-find (leaf p) r t = ground arith
  walk_path-find (split o q a b) r t =
      let step_a : PathStep F = record { axis = o; ratio = q; rect = r; side = in_a } in
      let step_b : PathStep F = record { axis = o; ratio = q; rect = r; side = in_b } in
      let wa = walk_path f a (split_rect f o r q).0 t in
      let wb = walk_path f b (split_rect f o r q).1 t in
      address_of-first_path (under step_a wa) (under step_b wb)
      ∙ rw (
        address_of-under step_a wa,
        address_of-under step_b wb,
        walk_path-find a (split_rect f o r q).0 t,
        walk_path-find b (split_rect f o r q).1 t,
      )

  -- How the loop ends: at the nearest ancestor along the axis, or at the root.
  abbrev pub Adjusts : List (PathStep F) → Axis → ℤ → Node F → Node F → Type 0
  Adjusts steps dir delta n m =
      (above : List (PathStep F)) × (parent : PathStep F) × (nearer : List (PathStep F)) × (steps
        ≡ above ++ parent ∷ nearer)
      × (axis_eq parent.axis dir ≡ true)
      × All (λ s. axis_eq s.axis dir ≡ false) nearer
      × (m ≡ set_ratio_at (address above) (new_ratio f dir parent delta) n)

  resize_up-eq-ok :
      (rev nearer : List (PathStep F)) (dir : Axis) (delta : ℤ) (n m : Node F)
      → All (λ s. axis_eq s.axis dir ≡ false) nearer
      → resize_up f rev dir delta n ≡ ok m
      → Adjusts (reverse rev ++ nearer) dir delta n m
  unfolding resize_up
  resize_up-eq-ok [] nearer dir delta n m h e = absurd (ground arith)
  resize_up-eq-ok (p ∷ up) nearer dir delta n m h e = elim (Bool-cases (axis_eq p.axis dir)) [
    | inl here ↦ (
      reverse up,
      p,
      nearer,
      rw (reverse-cons p up) (append_assoc (reverse up) (p ∷ []) nearer),
      here,
      h,
      ground arith,
    )
    | inr on ↦ rw (reverse-cons p up) (
        rw (append_assoc (reverse up) (p ∷ []) nearer)
          (resize_up-eq-ok up (p ∷ nearer) dir delta n m (on, h) (ground arith)))
  ]

  Adjusts-panes :
      (steps : List (PathStep F)) (dir : Axis) (delta : ℤ) (n m : Node F)
      → Adjusts steps dir delta n m
      → panes m ≡ panes n
  Adjusts-panes steps dir delta n m (above, parent, nearer, e, along_dir, others, made) =
      rw made (panes-set_ratio_at (address above) (new_ratio f dir parent delta) n)

  resize_up_end :
      (rev : List (PathStep F)) (dir : Axis) (delta : ℤ) (n : Node F)
      → (resize_up f rev dir delta n ≢ err pane_not_found)
        × (All (λ s. axis_eq s.axis dir ≡ false) rev → resize_up f rev dir delta n ≡ err no_split)
  unfolding resize_up
  resize_up_end [] dir delta n = (λ e. cc, λ _. refl)
  resize_up_end (p ∷ up) dir delta n =
      let rest = resize_up_end up dir delta n in
      (λ e. ground (arith, rest.0), λ h. ground (arith, rest.1 h.1))

  -- A Resize along an axis that succeeds changes one ratio and nothing else: that of the nearest
  -- ancestor of the target that splits along the axis, which gets the clamped new ratio; the
  -- panes and their order stay.
  pub resize-Adjusts :
      (n m : Node F) (target : PaneId) (dir : Axis) (delta : ℤ) (outer : Rect)
      → resize f (some n) target (along dir) delta outer ≡ ok m
      → (steps : List (PathStep F)) × (walk_path f n outer target ≡ some steps)
        × (find n target ≡ some (address steps))
        × Adjusts steps dir delta n m
        × (panes m ≡ panes n)
  unfolding resize
  resize-Adjusts n m target dir delta outer e = elim (Option-cases (walk_path f n outer target)) [
    | inl none_found ↦ absurd (ground arith)
    | inr (steps, found) ↦
        let done = resize_up-eq-ok (reverse steps) [] dir delta n m tt (ground arith) in
        let back : reverse (reverse steps) ++ [] ≡ steps =
          append-nil (reverse (reverse steps)) ∙ reverse-reverse steps in
        let adjusts = subst (λ l. Adjusts l dir delta n m) back done in
        (
          steps,
          found,
          sym (walk_path-find n outer target) ∙ rw found,
          adjusts,
          Adjusts-panes steps dir delta n m adjusts,
        )
  ]

  pub resize_errors :
      (n : Node F) (target : PaneId) (dir : Axis) (delta : ℤ) (outer : Rect)
      → (contains target (panes n) ≡ false
          → resize f (some n) target (along dir) delta outer ≡ err pane_not_found)
        × (contains target (panes n) ≡ true
            → resize f (some n) target (along dir) delta outer ≢ err pane_not_found)
        × ((steps : List (PathStep F))
            → walk_path f n outer target ≡ some steps
            → All (λ s. axis_eq s.axis dir ≡ false) steps
            → resize f (some n) target (along dir) delta outer ≡ err no_split)
  unfolding resize
  resize_errors n target dir delta outer =
      let absent = find-contains n target in
      let walked = walk_path-find n outer target in
      (
        λ h. elim (Option-cases (walk_path f n outer target)) [
          | inl none_found ↦ ground arith
          | inr (steps, found) ↦ absurd (ground arith)
        ],
        λ h e. elim (Option-cases (walk_path f n outer target)) [
          | inl none_found ↦ ground arith
          | inr (steps, found) ↦ (resize_up_end (reverse steps) dir delta n).0 (ground arith)
        ],
        λ steps found others.
            rw (found, resize)
              ((resize_up_end (reverse steps) dir delta n).1
                (All-reverse (λ s. axis_eq s.axis dir ≡ false) steps others)),
      )

  -- Resize along an axis reports a missing pane exactly when the target is not in the tree.
  pub resize_missing :
      (n : Node F) (target : PaneId) (dir : Axis) (delta : ℤ) (outer : Rect)
      → is_missing (resize f (some n) target (along dir) delta outer)
        ≡ not (contains target (panes n))
  resize_missing n target dir delta outer =
      let (absent, present, _) = resize_errors n target dir delta outer in
      elim (Bool-cases (contains target (panes n))) [
        | inl here ↦
            rw here (not_missing (resize f (some n) target (along dir) delta outer) (present here))
        | inr gone ↦ rw (gone, absent gone) refl
      ]
    where
      not_missing : (r : Result (Node F)) → r ≢ err pane_not_found → is_missing r ≡ false
      not_missing (ok m) h = refl
      not_missing (err bad_direction) h = refl
      not_missing (err pane_not_found) h = absurd (h refl)
      not_missing (err no_room) h = refl
      not_missing (err last_pane) h = refl
      not_missing (err no_split) h = refl

  -- Resize of a pane none of whose ancestors splits along the axis fails with the error for that.
  pub resize-no_split :
      (n : Node F) (target : PaneId) (dir : Axis) (delta : ℤ) (outer : Rect)
      (steps : List (PathStep F))
      → walk_path f n outer target ≡ some steps
      → All (λ s. axis_eq s.axis dir ≡ false) steps
      → resize f (some n) target (along dir) delta outer ≡ err no_split
  resize-no_split n target dir delta outer = (resize_errors n target dir delta outer).2
