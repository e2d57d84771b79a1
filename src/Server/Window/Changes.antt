-- ===== src/Server/Window/Changes.antt =====
-- The invariant of a window under zooming, splitting, adopting, removing and detaching, of
-- internal/server/window.go.
use ng_mux.Prelude.{
  ℕ, ◌+◌, ◌<◌, ◌≡◌, ◌≢◌, ◌⊎◌, inl, inr, refl, sym, ap, subst, ◌∙◌, arith, true, false, not, List,
  [], ◌∷◌, none, some, if◌then◌else◌, leb, ltb, ◌==◌, length, lookup, insert, erase, keys, is_some,
  contains, Distinct, contains-keys, Option-cases, Bool-cases,
}
use ng_mux.Layout.{
  Float64, Axis, Orientation, at_leaf, along, PaneId, Rect, Node, leaf, Result, ok, err, no_room,
}
use ng_mux.Layout
use ng_mux.Layout.Tree.{all_panes, panes}
use ng_mux.Layout.Geometry.{compute}
use ng_mux.Layout.Edit.{split_pane, fits, rect_or_zero}
use ng_mux.Layout.Splitting.{split_pane_outcome, insert_after}
use ng_mux.Server.Pane.{Pane}
use ng_mux.Server.Window.{
  Window, outer_for, apply_layout, toggle_zoom, unzoom, split, remove_pane, detach_pane, adopt_pane,
  is_nil,
}
use ng_mux.Server.Window.Valid.{IsValid, apply_layout-IsValid, apply_layout-SameShape}
use ng_mux.Server.Window.Moves.{with_zoom-IsValid, tree-some, grown-IsValid, shrunk-IsValid}

ok-injective {ℓ} : {A : Type ℓ} {a b : A} → ok a ≡ ok b → a ≡ b
ok-injective e = cc

nil_of_is_nil : (ps : List (PaneId × Pane)) → is_nil ps ≡ true → ps ≡ []
nil_of_is_nil [] h = refl
nil_of_is_nil (p ∷ ps) h = absurd (ground arith)

is_nil-keys :
    (ps : List (PaneId × Pane)) (j : PaneId) → contains j (keys ps) ≡ true → is_nil ps ≡ false
is_nil-keys [] j h = absurd (ground arith)
is_nil-keys (p ∷ ps) j h = refl

erase_absent :
    (t : PaneId) (ps : List (PaneId × Pane)) → contains t (keys ps) ≡ false → erase t ps ≡ ps
erase_absent t [] h = refl
erase_absent t ((j, p) ∷ ps) h = ground (arith, erase_absent t ps)

-- With two panes and more, one is left after the other has gone.
erase_many :
    (t : PaneId) (ps : List (PaneId × Pane))
    → Distinct (keys ps)
    → 1 < length ps
    → is_nil (erase t ps) ≡ false
erase_many t [] d h = absurd (omega arith)
erase_many t ((j, p) ∷ []) d h = absurd (omega arith)
erase_many t ((j, p) ∷ (i, q) ∷ ps) d h = ground (arith, erase_absent t ((i, q) ∷ ps))

pub holds_key : {F : Type 0} (w : Window F) → IsValid w → is_nil w.panes ≡ false
holds_key w v = is_nil-keys w.panes w.active (v.same_panes w.active ∙ v.active_present)

module _ (f : Float64) where
  open f use {F}

  pub toggle_zoom-IsValid :
      (w : Window F) (cols rows : ℕ) → IsValid w → IsValid (toggle_zoom f w cols rows).0
  unfolding toggle_zoom
  toggle_zoom-IsValid w cols rows v = apply_layout-IsValid f _ cols rows (zoomed v)
    where
      zoomed :
          IsValid w
          → IsValid (
              if not (w.zoom == 0)
              then record w { zoom = 0 }
              else if ltb 1 (length w.panes)
              then record w { zoom = w.active }
              else w)
      zoomed v = elim (Bool-cases (w.zoom == 0)) [
        | inl tiled ↦ elim (Bool-cases (ltb 1 (length w.panes))) [
          | inl many ↦ rw (tiled, many) (with_zoom-IsValid w w.active v)
          | inr one ↦ rw (tiled, one) v
        ]
        | inr big ↦ rw big (with_zoom-IsValid w 0 v)
      ]

  pub unzoom-IsValid : (w : Window F) (cols rows : ℕ) → IsValid w → IsValid (unzoom f w cols rows)
  unfolding unzoom
  unzoom-IsValid w cols rows v = elim (Bool-cases (w.zoom == 0)) [
    | inl tiled ↦ rw (tiled, unzoom) v
    | inr big ↦ rw (big, unzoom) (apply_layout-IsValid f _ cols rows (with_zoom-IsValid w 0 v))
  ]

  -- The outcome of a layout Split on a valid window.
  pub split_tree :
      (w : Window F) (new : PaneId) (dir : Axis) (room : Rect)
      → IsValid w
      → ((e : Layout.Error) × (split_pane f w.tree w.active new (along dir) room ≡ err e))
        ⊎ ((m : Node F) × (split_pane f w.tree w.active new (along dir) room ≡ ok m)
            × (panes m ≡ insert_after w.active new (all_panes w.tree)))
  split_tree w new dir room v =
      let (n, is_n) = tree-some w v in
      let held : all_panes w.tree ≡ panes n = ap all_panes is_n ∙ (unfold all_panes in refl) in
      let (absent, full, fine) = split_pane_outcome f n w.active new dir room in
      let present = ap (contains w.active) (sym held) ∙ v.active_present in
      elim (Bool-cases (fits dir (rect_or_zero (lookup w.active (compute f (some n) room))))) [
        | inl roomy ↦
            let (m, done, made) = fine present roomy in
            inr (m, rw is_n done, made ∙ ap (insert_after w.active new) (sym held))
        | inr tight ↦ inl (no_room, rw is_n (full present tight))
      ]

  -- Splitting a valid window, with a new pane id that is not in it and is not 0 and a pty that
  -- starts, leaves it valid, whether there is room or not.
  pub split-IsValid :
      (w : Window F) (new : PaneId) (dir : Axis) (cols rows : ℕ)
      → IsValid w
      → contains new (all_panes w.tree) ≡ false
      → new ≢ 0
      → IsValid (split f w new dir cols rows true).0
  unfolding split
  split-IsValid w new dir cols rows v fresh ne =
      elim (split_tree w new dir (outer_for w cols rows (length w.panes + 1)) v) [
        | inl (e, failed) ↦ rw (failed, split) v
        | inr (m, done, made) ↦
            rw (done, split)
              (apply_layout-IsValid f _ cols rows (grown-IsValid w m new _ v made fresh ne))
      ]

  -- A valid window that adopts a pane, whose id is not in it and is not 0, is valid afterwards
  -- and has the focus on that pane.
  pub adopt_pane-IsValid :
      (w w' : Window F) (p : Pane) (dir : Axis) (cols rows : ℕ)
      → IsValid w
      → contains p.id (all_panes w.tree) ≡ false
      → p.id ≢ 0
      → adopt_pane f w p dir cols rows ≡ ok w'
      → IsValid w' × (w'.active ≡ p.id)
  unfolding adopt_pane
  adopt_pane-IsValid w w' p dir cols rows v fresh ne e =
      elim (split_tree w p.id dir (outer_for w cols rows (length w.panes + 1)) v) [
        | inl (x, failed) ↦ absurd (ground arith)
        | inr (m, done, made) ↦
            let joined = record w {
              zoom = 0;
              tree = some m;
              panes = insert p.id (record p { win = w.id }) w.panes;
              active = p.id;
            } in
            let same : apply_layout f joined cols rows ≡ w' =
              ok-injective (sym (rw (done, adopt_pane)) ∙ e) in
            (
              subst IsValid same (
                  apply_layout-IsValid f joined cols rows
                    (grown-IsValid w m p.id (record p { win = w.id }) v made fresh ne)),
              ap (λ x. x.active) (sym same) ∙ (apply_layout-SameShape f joined cols rows).2,
            )
      ]

  -- removePane on a valid window either reports it empty, and leaves no pane and no tree, or
  -- leaves a valid window.
  pub remove_pane-IsValid :
      (w : Window F) (t : PaneId) (cols rows : ℕ)
      → IsValid w
      → let r = remove_pane f w t cols rows in
        ((r.1 ≡ true) × (r.0.panes ≡ []) × (r.0.tree ≡ none)) ⊎ ((r.1 ≡ false) × IsValid r.0)
  unfolding remove_pane
  remove_pane-IsValid w t cols rows v = elim (Option-cases (lookup t w.panes)) [
    | inl missing ↦ rw (missing, remove_pane) (inr (holds_key w v, v))
    | inr (p, here) ↦ elim (Bool-cases (is_nil (erase t w.panes))) [
      | inl last ↦
          rw (here, remove_pane) (rw last (inl (refl, nil_of_is_nil (erase t w.panes) last, refl)))
      | inr more ↦
          let (n, is_n) = tree-some w v in
          rw (here, remove_pane)
            (rw more (
              inr (
                refl,
                apply_layout-IsValid f _ cols rows
                    (shrunk-IsValid w n t is_n v (contains-keys t w.panes ∙ ap is_some here) more),
              )))
    ]
  ]

  -- detachPane on a valid window leaves a valid one, and hands out the pane with the id unless
  -- the window has only one pane or none with that id.
  detach_pane-IsValid :
      (w : Window F) (t : PaneId) (cols rows : ℕ)
      → IsValid w
      → IsValid (detach_pane f w t cols rows).0
        × ((detach_pane f w t cols rows).1
            ≡ (if leb (length w.panes) 1 then none else lookup t w.panes))
  unfolding detach_pane
  detach_pane-IsValid w t cols rows v = elim (Option-cases (lookup t w.panes)) [
    | inl missing ↦ rw (missing, detach_pane) (v, ground arith)
    | inr (p, here) ↦ elim (Bool-cases (leb (length w.panes) 1)) [
      | inl only ↦ rw (here, detach_pane) (rw only (v, refl))
      | inr many ↦
          let (n, is_n) = tree-some w v in
          let more = erase_many t w.panes v.keys_distinct (ground arith) in
          rw (here, detach_pane)
            (rw many (
              apply_layout-IsValid f _ cols rows (
                  with_zoom-IsValid _ 0
                    (shrunk-IsValid w n t is_n v (contains-keys t w.panes ∙ ap is_some here) more)),
              refl,
            ))
    ]
  ]
