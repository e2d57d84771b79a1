-- ===== src/Layout/Removing.antt =====
-- Lemmas about Remove of internal/layout/layout.go.
use mathlib.Core.List.{append-nil}
use ng_mux.Prelude.{
  ◌≡◌, ◌≢◌, ◌⊎◌, inl, inr, refl, true, false, [], ◌∷◌, some, arith, contains, contains-append,
  length, length-append, Distinct, Distinct-left, Distinct-right, Distinct-apart, without,
  without-append, without-absent, Bool-cases, Option-cases, ap, ◌∙◌,
}
use ng_mux.Layout.{
  Float64, Axis, along, Rect, PaneId, Node, leaf, split, ok, err, last_pane, pane_not_found,
}
use ng_mux.Layout.Tree.{TreePath, panes, first_leaf, find, replace_at}
use ng_mux.Layout.Panes.{contains-first_leaf, length-panes}
use ng_mux.Layout.SplitRects.{split_pane-eq-ok}
use ng_mux.Layout.Edit.{is_leaf_of, remove_in, remove, split_pane}

module _ {F : Type 0} where
  leaf_of-panes : (n : Node F) (t : PaneId) → is_leaf_of n t ≡ true → panes n ≡ t ∷ []
  unfolding is_leaf_of panes
  leaf_of-panes (leaf p) t h = ground arith
  leaf_of-panes (split o q a b) t h = cc

  remove_in-found : (n : Node F) (t : PaneId) → (remove_in n t).found ≡ contains t (panes n)
  unfolding remove_in panes
  remove_in-found (leaf p) t = ground arith
  remove_in-found (split o q a b) t = ground (
    arith,
    remove_in-found a t,
    remove_in-found b t,
    leaf_of-panes a t,
    leaf_of-panes b t,
    contains-append t (panes a) (panes b),
  )

  remove_in-panes :
      (n : Node F) (t : PaneId)
      → is_leaf_of n t ≡ false
      → Distinct (panes n)
      → (remove_in n t).found ≡ true
      → panes (remove_in n t).tree ≡ without t (panes n)
  unfolding remove_in panes is_leaf_of
  remove_in-panes (leaf p) t h d e = ground arith
  remove_in-panes (split o q a b) t h d e =
      let left = Distinct-left (panes a) (panes b) d in
      let right = Distinct-right (panes a) (panes b) d in
      ground (
        arith,
        remove_in-found a t,
        remove_in-found b t,
        remove_in-panes a t,
        remove_in-panes b t,
        leaf_of-panes a t,
        leaf_of-panes b t,
        Distinct-apart t (panes a) (panes b) d,
        without-append t (panes a) (panes b),
        append-nil (panes a),
        without-absent t (panes a),
        without-absent t (panes b),
      )

  remove_in-focus :
      (n : Node F) (t : PaneId)
      → is_leaf_of n t ≡ false
      → (remove_in n t).found ≡ true
      → contains (remove_in n t).focus (panes (remove_in n t).tree) ≡ true
  unfolding remove_in panes is_leaf_of
  remove_in-focus (leaf p) t h e = absurd (ground arith)
  remove_in-focus (split o q a b) t h e = ground (
    arith,
    remove_in-focus a t,
    remove_in-focus b t,
    contains-first_leaf a,
    contains-first_leaf b,
    contains-append (remove_in a t).focus (panes (remove_in a t).tree) (panes b),
    contains-append (remove_in b t).focus (panes a) (panes (remove_in b t).tree),
  )

  pub remove_outcome :
      (n : Node F) (t : PaneId)
      → Distinct (panes n)
      → (contains t (panes n) ≡ false → remove (some n) t ≡ err pane_not_found)
        × (panes n ≡ t ∷ [] → remove (some n) t ≡ err last_pane)
        × (contains t (panes n) ≡ true
            → panes n ≢ t ∷ []
            → (m : Node F) × (focus : PaneId) × (remove (some n) t ≡ ok (m, focus))
              × (panes m ≡ without t (panes n))
              × (contains focus (panes m) ≡ true))
  unfolding remove panes is_leaf_of
  remove_outcome (leaf p) t d =
      (λ h. ground arith, λ h. ground arith, λ h ne. absurd (ne (ground arith)))
  remove_outcome (split o q a b) t d =
      let found = remove_in-found (split o q a b) t in
      let two = length-append (panes a) (panes b) in
      (
        λ h. ground arith,
        λ h. absurd (omega (arith, ap length h, length-panes a, length-panes b)),
        λ h ne. (
          (remove_in (split o q a b) t).tree,
          (remove_in (split o q a b) t).focus,
          ground arith,
          remove_in-panes (split o q a b) t refl d (found ∙ h),
          remove_in-focus (split o q a b) t refl (found ∙ h),
        ),
      )

-- Remove on a tree without repeated panes does one of three things: it reports a pane that is
-- not there, it refuses the only pane, or it takes the pane out of the list, the rest keeping
-- their order, and answers with a pane to focus that is left.
pub remove_cases :
    {F : Type 0} (n : Node F) (t : PaneId)
    → Distinct (panes n)
    → ((contains t (panes n) ≡ false) × (remove (some n) t ≡ err pane_not_found))
      ⊎ ((panes n ≡ t ∷ []) × (remove (some n) t ≡ err last_pane))
      ⊎ ((contains t (panes n) ≡ true)
          × ((m : Node F) × (focus : PaneId) × (remove (some n) t ≡ ok (m, focus))
              × (panes m ≡ without t (panes n))
              × (contains focus (panes m) ≡ true)))
remove_cases n t d =
    let (absent, last, other) = remove_outcome n t d in
    elim (Bool-cases (contains t (panes n))) [
      | inl here ↦ elim (only_or_not n t here) [
        | inl only ↦ inr (inl (only, last only))
        | inr more ↦ inr (inr (here, other here more))
      ]
      | inr gone ↦ inl (gone, absent gone)
    ]
  where
    only_or_not :
        {F : Type 0} (n : Node F) (t : PaneId)
        → contains t (panes n) ≡ true
        → (panes n ≡ t ∷ []) ⊎ (panes n ≢ t ∷ [])
    only_or_not (leaf p) t h = inl (unfold panes in ground arith)
    only_or_not (split o q a b) t h = inr (λ e.
        unfold panes in
        omega
          (arith, ap length e, length-append (panes a) (panes b), length-panes a, length-panes b))

remove-eq_of_remove_in :
    {F : Type 0} (n : Node F) (t : PaneId)
    → is_leaf_of n t ≡ false
    → (remove_in n t).found ≡ true
    → remove (some n) t ≡ ok ((remove_in n t).tree, (remove_in n t).focus)
unfolding remove remove_in is_leaf_of
remove-eq_of_remove_in (leaf p) t h e = absurd (ground arith)
remove-eq_of_remove_in (split o q a b) t h e = rw e

module _ (f : Float64) where
  open f use {F, decimal}

  remove_in-replace_at :
      (n : Node F) (t new : PaneId) (d : Axis) (v : F) (p : TreePath)
      → contains new (panes n) ≡ false
      → find n t ≡ some p
      → let r = remove_in (replace_at p (split d v (leaf t) (leaf new)) n) new in
        (r.tree ≡ n)
        × (r.focus ≡ t)
        × (r.found ≡ true)
        × (is_leaf_of (replace_at p (split d v (leaf t) (leaf new)) n) new ≡ false)
  unfolding remove_in replace_at find panes is_leaf_of first_leaf
  remove_in-replace_at (leaf x) t new d v p fresh e = ground arith
  remove_in-replace_at (split o q a b) t new d v p fresh e =
      let joined = contains-append new (panes a) (panes b) in
      elim (Option-cases (find a t)) [
        | inl miss ↦ elim (Option-cases (find b t)) [
          | inl gone ↦ absurd (ground arith)
          | inr (pb, hit) ↦ ground (
            arith,
            remove_in-replace_at b t new d v pb (ground arith) hit,
            contains-append new (panes a) (panes b),
            leaf_of-panes a new,
            remove_in-found a new,
          )
        ]
        | inr (pa, hit) ↦ ground (
          arith,
          remove_in-replace_at a t new d v pa (ground arith) hit,
          contains-append new (panes a) (panes b),
          leaf_of-panes b new,
        )
      ]

  -- Removing the pane that a successful Split has just added, a pane that was not in the tree,
  -- gives back the tree that was split, and the focus goes back to the pane that was split.
  pub remove-split_pane :
      (n m : Node F) (target new : PaneId) (dir : Axis) (outer : Rect)
      → contains new (panes n) ≡ false
      → split_pane f (some n) target new (along dir) outer ≡ ok m
      → remove (some m) new ≡ ok (n, target)
  remove-split_pane n m target new dir outer fresh e =
      let (p, hit, room, made) = split_pane-eq-ok f n m target new dir outer e in
      let undone = remove_in-replace_at n target new dir (decimal 5 1) p fresh hit in
      rw made (
        remove-eq_of_remove_in (replace_at p (split dir (decimal 5 1) (leaf target) (leaf new)) n)
          new undone.3 undone.2
        ∙ rw (undone.0, undone.1))
