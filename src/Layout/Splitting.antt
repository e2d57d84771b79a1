-- ===== src/Layout/Splitting.antt =====
-- Lemmas about the panes after Split of internal/layout/layout.go, and about CanSplit.
use ng_mux.Prelude.{
  ℕ, ◌≡◌, inl, inr, refl, true, ◌||◌, ◌&&◌, List, [], ◌∷◌, ◌++◌, Option, some, arith, ◌==◌,
  if◌then◌else◌, contains, Distinct, Option-cases, lookup, Bool-cases, ◌⊎◌, false,
}
use ng_mux.Layout.{
  Float64, Axis, Orientation, at_leaf, along, Rect, PaneId, Node, leaf, split, ok, err,
  pane_not_found, no_room, is_ok,
}
use ng_mux.Layout.Geometry.{compute}
use ng_mux.Layout.Tree.{TreePath, panes, find, replace_at}
use ng_mux.Layout.Panes.{find-contains}
use ng_mux.Layout.Edit.{fits, find_in, replace_in, split_pane, can_split, rect_or_zero}

-- `new` put right behind the first occurrence of `t`.
abbrev pub insert_after : ℕ → ℕ → List ℕ → List ℕ
insert_after t new [] = []
insert_after t new (x ∷ xs) = if x == t then x ∷ new ∷ xs else x ∷ insert_after t new xs

insert_after-append :
    (t v : ℕ) (xs ys : List ℕ)
    → insert_after t v (xs ++ ys)
      ≡ (if contains t xs then insert_after t v xs ++ ys else xs ++ insert_after t v ys)
insert_after-append t v [] ys = refl
insert_after-append t v (x ∷ xs) ys = ground (arith, insert_after-append t v xs ys)

pub contains-insert_after :
    (t v k : ℕ) (xs : List ℕ)
    → contains k (insert_after t v xs) ≡ (contains k xs || (contains t xs && v == k))
contains-insert_after t v k [] = refl
contains-insert_after t v k (x ∷ xs) = ground (arith, contains-insert_after t v k xs)

pub insert_after-Distinct :
    (t v : ℕ) (xs : List ℕ) → Distinct xs → contains v xs ≡ false → Distinct (insert_after t v xs)
insert_after-Distinct t v [] d h = tt
insert_after-Distinct t v (x ∷ xs) d h =
    ground (arith, contains-insert_after t v x xs, insert_after-Distinct t v xs d.1)

module _ {F : Type 0} where
  panes-replace_at :
      (n : Node F) (t new : PaneId) (d : Axis) (q : F) (p : TreePath)
      → find n t ≡ some p
      → panes (replace_at p (split d q (leaf t) (leaf new)) n) ≡ insert_after t new (panes n)
  unfolding find panes replace_at
  panes-replace_at (leaf x) t new d q p e = ground arith
  panes-replace_at (split o r a b) t new d q p e = elim (Option-cases (find a t)) [
    | inl miss ↦ elim (Option-cases (find b t)) [
      | inl gone ↦ absurd (ground arith)
      | inr (pb, hit) ↦ ground (
        arith,
        panes-replace_at b t new d q pb hit,
        insert_after-append t new (panes a) (panes b),
        find-contains a t,
      )
    ]
    | inr (pa, hit) ↦ ground (
      arith,
      panes-replace_at a t new d q pa hit,
      insert_after-append t new (panes a) (panes b),
      find-contains a t,
    )
  ]

module _ (f : Float64) where
  open f use {F, of_int, to_int, mul, decimal}

  pub split_pane_outcome :
      (n : Node F) (target new : PaneId) (dir : Axis) (outer : Rect)
      → (contains target (panes n) ≡ false
          → split_pane f (some n) target new (along dir) outer ≡ err pane_not_found)
        × (contains target (panes n) ≡ true
            → fits dir (rect_or_zero (lookup target (compute f (some n) outer))) ≡ false
            → split_pane f (some n) target new (along dir) outer ≡ err no_room)
        × (contains target (panes n) ≡ true
            → fits dir (rect_or_zero (lookup target (compute f (some n) outer))) ≡ true
            → (m : Node F) × (split_pane f (some n) target new (along dir) outer ≡ ok m)
              × (panes m ≡ insert_after target new (panes n)))
  unfolding split_pane find_in replace_in
  split_pane_outcome n target new dir outer = elim (Option-cases (find n target)) [
    | inl miss ↦ (
      λ h. ground arith,
      λ h _. ground (arith, find-contains n target),
      λ h _. absurd (ground (arith, find-contains n target)),
    )
    | inr (p, hit) ↦ (
      λ h. ground (arith, find-contains n target),
      λ h k. ground arith,
      λ h k. (
        replace_at p (split dir (decimal 5 1) (leaf target) (leaf new)) n,
        ground arith,
        panes-replace_at n target new dir (decimal 5 1) p hit,
      ),
    )
  ]

  -- Split along an axis, of a tree that is there, does one of three things: it reports a target
  -- that is not in the tree, it reports a target whose rectangle has no room, or it puts the new
  -- pane right behind the target in the list of panes.
  pub split_pane_cases :
      (n : Node F) (target new : PaneId) (dir : Axis) (outer : Rect)
      → let room = fits dir (rect_or_zero (lookup target (compute f (some n) outer))) in
        let result = split_pane f (some n) target new (along dir) outer in
        ((contains target (panes n) ≡ false) × (result ≡ err pane_not_found))
        ⊎ ((contains target (panes n) ≡ true) × (room ≡ false) × (result ≡ err no_room))
        ⊎ ((contains target (panes n) ≡ true)
            × (room ≡ true)
            × ((m : Node F) × (result ≡ ok m) × (panes m ≡ insert_after target new (panes n))))
  split_pane_cases n target new dir outer =
      let (absent, tight, fine) = split_pane_outcome n target new dir outer in
      elim (Bool-cases (contains target (panes n))) [
        | inl here ↦
            elim (Bool-cases (fits dir (rect_or_zero (lookup target (compute f (some n) outer))))) [
              | inl roomy ↦ inr (inr (here, roomy, fine here roomy))
              | inr small ↦ inr (inl (here, small, tight here small))
            ]
        | inr gone ↦ inl (gone, absent gone)
      ]

  -- CanSplit answers exactly whether Split would succeed, for every new pane, in every
  -- direction, Leaf included, and for a nil root too.
  pub can_split_predicts :
      (root : Option (Node F)) (target new : PaneId) (dir : Orientation) (outer : Rect)
      → can_split f root target dir outer ≡ is_ok (split_pane f root target new dir outer)
  unfolding split_pane can_split
  can_split_predicts root target new at_leaf outer = refl
  can_split_predicts root target new (along dir) outer = elim (Option-cases (find_in root target)) [
    | inl miss ↦ ground arith
    | inr (p, hit) ↦ ground arith
  ]
