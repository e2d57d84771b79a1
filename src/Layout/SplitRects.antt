-- ===== src/Layout/SplitRects.antt =====
-- Lemmas about the rectangles after Split of internal/layout/layout.go.
use ng_mux.Prelude.{
  ℕ, ◌-◌, ◌/◌, ◌≡◌, ◌≢◌, ◌≤◌, ◌<◌, ◌^◌, ◌⊎◌, inl, inr, refl, true, false, none, some, arith,
  contains, contains-append, Distinct, Distinct-left, Distinct-right, Distinct-apart, Option-cases,
  is_some, sym, subst, ◌∙◌, lookup,
}
use ng_mux.Prelude.Int.{pos}
use ng_mux.Layout.{
  Float64, Axis, horizontal, vertical, along, Rect, PaneId, Node, leaf, split, ok, min_pane_w,
  min_pane_h,
}
use ng_mux.Layout.Geometry.{compute, split_rect, split_axis, clamp_span}
use ng_mux.Layout.Tiling.{rect_of, lookup-compute}
use ng_mux.Layout.Tree.{TreePath, panes, find, replace_at}
use ng_mux.Layout.Panes.{find-contains}
use ng_mux.Layout.Edit.{fits, find_in, replace_in, split_pane, rect_or_zero}

-- Half of a whole number, rounded down: exact in float64 below 2^53.
abbrev pub Halves : Float64 → Type 0
Halves f = (n : ℕ) → n < 2 ^ 53 → f.to_int (f.mul (f.of_int (pos n)) (f.decimal 5 1)) ≡ pos (n / 2)

abbrev pub HasMinimum : Rect → Type 0
HasMinimum r = (min_pane_w ≤ r.w) × (min_pane_h ≤ r.h)

clamp_span-pos : (avail k : ℕ) → 1 ≤ k → k ≤ avail - 1 → clamp_span avail (pos k) ≡ k
unfolding clamp_span
clamp_span-pos avail k h g = ground arith

module _ (f : Float64) where
  open f use {F, of_int, to_int, mul, decimal}

  pub rect_of-absent :
      (n : Node F) (r : Rect) (j : PaneId) → contains j (panes n) ≡ false → rect_of f n r j ≡ none
  unfolding rect_of panes
  rect_of-absent (leaf p) r j h = ground arith
  rect_of-absent (split o q a b) r j h = ground (
    arith,
    contains-append j (panes a) (panes b),
    rect_of-absent a (split_rect f o r q).0 j,
    rect_of-absent b (split_rect f o r q).1 j,
  )

  pub rect_of-present :
      (n : Node F) (r : Rect) (j : PaneId)
      → contains j (panes n) ≡ true
      → is_some (rect_of f n r j) ≡ true
  unfolding rect_of panes
  rect_of-present (leaf p) r j h = ground arith
  rect_of-present (split o q a b) r j h = ground (
    arith,
    contains-append j (panes a) (panes b),
    rect_of-present a (split_rect f o r q).0 j,
    rect_of-present b (split_rect f o r q).1 j,
  )

  rect_of-replace_ne :
      (n : Node F) (r : Rect) (t new j : PaneId) (d : Axis) (v : F) (p : TreePath)
      → find n t ≡ some p
      → j ≢ t
      → j ≢ new
      → rect_of f (replace_at p (split d v (leaf t) (leaf new)) n) r j ≡ rect_of f n r j
  unfolding rect_of find replace_at
  rect_of-replace_ne (leaf x) r t new j d v p e h k = ground arith
  rect_of-replace_ne (split o q a b) r t new j d v p e h k = elim (Option-cases (find a t)) [
    | inl miss ↦ elim (Option-cases (find b t)) [
      | inl gone ↦ absurd (ground arith)
      | inr (pb, hit) ↦
          ground (arith, rect_of-replace_ne b (split_rect f o r q).1 t new j d v pb hit h k)
    ]
    | inr (pa, hit) ↦
        ground (arith, rect_of-replace_ne a (split_rect f o r q).0 t new j d v pa hit h k)
  ]

  rect_of-replace_in :
      (n : Node F) (r cur : Rect) (t new j : PaneId) (d : Axis) (v : F) (p : TreePath) (s : Rect)
      → Distinct (panes n)
      → contains new (panes n) ≡ false
      → find n t ≡ some p
      → rect_of f n r t ≡ some cur
      → (j ≡ t) ⊎ (j ≡ new)
      → rect_of f (split d v (leaf t) (leaf new)) cur j ≡ some s
      → rect_of f (replace_at p (split d v (leaf t) (leaf new)) n) r j ≡ some s
  unfolding rect_of find replace_at panes
  rect_of-replace_in (leaf x) r cur t new j d v p s dis fresh e c w g = ground arith
  rect_of-replace_in (split o q a b) r cur t new j d v p s dis fresh e c w g =
      let facts = contains-append new (panes a) (panes b) in
      elim (Option-cases (find a t)) [
        | inl miss ↦ elim (Option-cases (find b t)) [
          | inl gone ↦ absurd (ground arith)
          | inr (pb, hit) ↦
              let at_b =
                rect_of-absent a (split_rect f o r q).0 t (ground (arith, find-contains a t)) in
              ground (
                arith,
                rect_of-replace_in b (split_rect f o r q).1 cur t new j d v pb s
                    (Distinct-right (panes a) (panes b) dis) (ground arith) hit (ground arith) w g,
              )
        ]
        | inr (pa, hit) ↦
            let apart =
              Distinct-apart t (panes a) (panes b) dis (ground (arith, find-contains a t)) in
            let none_t = rect_of-absent b (split_rect f o r q).1 t apart in
            let none_new = rect_of-absent b (split_rect f o r q).1 new (ground arith) in
            ground (
              arith,
              rect_of-replace_in a (split_rect f o r q).0 cur t new j d v pa s
                  (Distinct-left (panes a) (panes b) dis) (ground arith) hit (ground arith) w g,
            )
      ]

  half_spans :
      Halves f
      → (w k : ℕ) → 1 ≤ k
      → w < 2 ^ 53
      → k ≤ (w - 1) / 2
      → let s = split_axis f w (decimal 5 1) in (k ≤ s.a_span) × (k ≤ s.b_span)
  unfolding split_axis
  half_spans halves w k h small g = ground (
    arith,
    halves (w - 1) (omega arith),
    clamp_span-pos (w - 1) ((w - 1) / 2) (omega arith) (omega arith),
  )

  split_rect-HasMinimum :
      (d : Axis) (cur : Rect)
      → Halves f
      → cur.w < 2 ^ 53
      → cur.h < 2 ^ 53
      → fits d cur ≡ true
      → HasMinimum (split_rect f d cur (decimal 5 1)).0
        × HasMinimum (split_rect f d cur (decimal 5 1)).1
  unfolding split_rect fits
  split_rect-HasMinimum horizontal cur halves w h g =
      let s = half_spans halves cur.w 3 (omega arith) w (ground arith) in
      let t : 2 ≤ cur.h = ground arith in ((s.0, t), (s.1, t))
  split_rect-HasMinimum vertical cur halves w h g =
      let s = half_spans halves cur.h 2 (omega arith) h (ground arith) in
      let t : 3 ≤ cur.w = ground arith in ((t, s.0), (t, s.1))

  ne_of_fresh :
      (n : Node F) (t new : PaneId) {p : TreePath}
      → contains new (panes n) ≡ false
      → find n t ≡ some p
      → t ≢ new
  ne_of_fresh n t new fresh hit same = let present = find-contains n t in ground arith

  halves_rects :
      (d : Axis) (cur : Rect) (t new : PaneId)
      → t ≢ new
      → let sub = split d (decimal 5 1) (leaf t) (leaf new) in
        (rect_of f sub cur t ≡ some (split_rect f d cur (decimal 5 1)).0)
        × (rect_of f sub cur new ≡ some (split_rect f d cur (decimal 5 1)).1)
  unfolding rect_of
  halves_rects d cur t new ne = (ground arith, ground arith)

  -- What a successful Split was.
  pub split_pane-eq-ok :
      (n m : Node F) (target new : PaneId) (dir : Axis) (outer : Rect)
      → split_pane f (some n) target new (along dir) outer ≡ ok m
      → (p : TreePath) × (find n target ≡ some p)
        × (fits dir (rect_or_zero (lookup target (compute f (some n) outer))) ≡ true)
        × (m ≡ replace_at p (split dir (decimal 5 1) (leaf target) (leaf new)) n)
  unfolding split_pane find_in replace_in
  split_pane-eq-ok n m target new dir outer e = elim (Option-cases (find n target)) [
    | inl miss ↦ absurd (ground arith)
    | inr (p, hit) ↦ (p, hit, ground arith, ground arith)
  ]

  -- A Split that succeeds leaves every other pane its rectangle and gives both halves at least
  -- the minimum size, in a tree without repeated panes, for a new pane that is not in it and a
  -- target whose sides are below 2^53, with a float64 that halves such numbers exactly.
  pub split_pane-rects :
      (n m : Node F) (target new j : PaneId) (dir : Axis) (outer cur : Rect)
      → Halves f
      → Distinct (panes n)
      → contains new (panes n) ≡ false
      → lookup target (compute f (some n) outer) ≡ some cur
      → cur.w < 2 ^ 53
      → cur.h < 2 ^ 53
      → split_pane f (some n) target new (along dir) outer ≡ ok m
      → j ≢ target
      → j ≢ new
      → (lookup j (compute f (some m) outer) ≡ lookup j (compute f (some n) outer))
        × ((s : Rect) × (lookup target (compute f (some m) outer) ≡ some s) × HasMinimum s)
        × ((s : Rect) × (lookup new (compute f (some m) outer) ≡ some s) × HasMinimum s)
  split_pane-rects n m target new j dir outer cur halves dis fresh at small_w small_h e ht hn =
      let (p, hit, room, made) = split_pane-eq-ok n m target new dir outer e in
      let found = sym (lookup-compute f n outer target) ∙ at in
      let room' = subst (λ o. fits dir (rect_or_zero o) ≡ true) at room in
      let sizes = split_rect-HasMinimum dir cur halves small_w small_h room' in
      let ne : target ≢ new = ne_of_fresh n target new fresh hit in
      let inside = rect_of-replace_in n outer cur target new in
      let parts = halves_rects dir cur target new ne in
      (
        rw made (
            lookup-compute f (replace_at p (split dir (decimal 5 1) (leaf target) (leaf new)) n)
              outer j
            ∙ rect_of-replace_ne n outer target new j dir (decimal 5 1) p hit ht hn
            ∙ sym (lookup-compute f n outer j)),
        (
          (split_rect f dir cur (decimal 5 1)).0,
          rw made (
              lookup-compute f (replace_at p (split dir (decimal 5 1) (leaf target) (leaf new)) n)
                outer target
              ∙ inside target dir (decimal 5 1) p (split_rect f dir cur (decimal 5 1)).0 dis fresh
                  hit found (inl refl) parts.0),
          sizes.0,
        ),
        (
          (split_rect f dir cur (decimal 5 1)).1,
          rw made (
              lookup-compute f (replace_at p (split dir (decimal 5 1) (leaf target) (leaf new)) n)
                outer new
              ∙ inside new dir (decimal 5 1) p (split_rect f dir cur (decimal 5 1)).1 dis fresh hit
                  found (inr refl) parts.1),
          sizes.1,
        ),
      )
