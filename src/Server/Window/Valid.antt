-- ===== src/Server/Window/Valid.antt =====
-- The invariant of a window of internal/server/window.go: its split tree and its map of panes are
-- about the same panes, and the focus is on one of them.
use ng_mux.Prelude.{
  ℕ, ◌≡◌, ◌≢◌, refl, ◌∙◌, arith, true, false, List, [], ◌∷◌, Option, none, some, modify, keys,
  contains, Distinct, keys-modify, Bytes,
}
use ng_mux.Layout.{Float64, PaneId, Rect}
use ng_mux.Layout.Tree.{all_panes, panes}
use ng_mux.Layout.Geometry.{compute}
use ng_mux.Server.Pane.{Pane}
use ng_mux.Server.Pane
use ng_mux.Server.Window.{
  Window, wrap_window, apply_rects, zoomed_pane, lay_out, apply_layout, max1, outer,
}

pub record IsValid {F : Type 0} (w : Window F) : Type 0 where
  pub distinct : Distinct (all_panes w.tree)
  pub keys_distinct : Distinct (keys w.panes)
  pub same_panes : (j : PaneId) → contains j (keys w.panes) ≡ contains j (all_panes w.tree)
  pub active_present : contains w.active (all_panes w.tree) ≡ true
  pub nonzero : contains 0 (all_panes w.tree) ≡ false

pub keys-apply_rects :
    (rs : List (PaneId × Rect)) (ps : List (PaneId × Pane)) → keys (apply_rects rs ps) ≡ keys ps
unfolding apply_rects
keys-apply_rects [] ps = refl
keys-apply_rects ((id, r) ∷ rest) ps =
    keys-apply_rects rest (modify id (λ p. Pane.resize p (max1 r.w) (max1 r.h)) ps)
    ∙ keys-modify id (λ p. Pane.resize p (max1 r.w) (max1 r.h)) ps

pub wrap_window-IsValid :
    {F : Type 0} (id : ℕ) (name : Bytes) (p : Pane)
    → p.id ≢ 0
    → IsValid (wrap_window {F = F} id name p)
unfolding wrap_window all_panes panes
wrap_window-IsValid id name p h = record {
  distinct = (refl, tt);
  keys_distinct = (refl, tt);
  same_panes = λ j. refl;
  active_present = ground arith;
  nonzero = ground arith;
}

module _ (f : Float64) where
  open f use {F}

  -- What a change of sizes leaves alone.
  abbrev pub SameShape : Window F → Window F → Type 0
  SameShape w w' = (w'.tree ≡ w.tree) × (keys w'.panes ≡ keys w.panes) × (w'.active ≡ w.active)

  lay_out-SameShape :
      (w : Window F) (zp : Option Pane) (cols rows : ℕ) → SameShape w (lay_out f w zp cols rows)
  unfolding lay_out
  lay_out-SameShape w (some p) cols rows =
      (refl, keys-modify w.zoom (λ q. Pane.resize q (max1 cols) (max1 rows)) w.panes, refl)
  lay_out-SameShape w none cols rows =
      (refl, keys-apply_rects (compute f w.tree (outer w cols rows)) w.panes, refl)

  zoomed_pane-SameShape : (w : Window F) → SameShape w (zoomed_pane w).0
  unfolding zoomed_pane
  zoomed_pane-SameShape w = ground arith

  -- applyLayout changes sizes, and may clear a stale zoom; nothing else.
  pub apply_layout-SameShape :
      (w : Window F) (cols rows : ℕ) → SameShape w (apply_layout f w cols rows)
  unfolding apply_layout
  apply_layout-SameShape w cols rows =
      let z = zoomed_pane-SameShape w in
      let l = lay_out-SameShape (zoomed_pane w).0 (zoomed_pane w).1 cols rows in
      (l.0 ∙ z.0, l.1 ∙ z.1, l.2 ∙ z.2)

  pub apply_layout-id : (w : Window F) (cols rows : ℕ) → (apply_layout f w cols rows).id ≡ w.id
  unfolding apply_layout zoomed_pane
  apply_layout-id w cols rows = lay_out-id (zoomed_pane w).0 (zoomed_pane w).1 ∙ ground arith
    where
      lay_out-id : (w : Window F) (zp : Option Pane) → (lay_out f w zp cols rows).id ≡ w.id
      lay_out-id w (some p) = unfold lay_out in refl
      lay_out-id w none = unfold lay_out in refl

  pub apply_layout-IsValid :
      (w : Window F) (cols rows : ℕ) → IsValid w → IsValid (apply_layout f w cols rows)
  apply_layout-IsValid w cols rows v =
      let (same_tree, same_keys, same_active) = apply_layout-SameShape w cols rows in
      record {
        distinct = rw same_tree v.distinct;
        keys_distinct = rw same_keys v.keys_distinct;
        same_panes = λ j. rw (same_tree, same_keys) (v.same_panes j);
        active_present = rw (same_tree, same_active) v.active_present;
        nonzero = rw same_tree v.nonzero;
      }
