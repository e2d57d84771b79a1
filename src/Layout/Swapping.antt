-- ===== src/Layout/Swapping.antt =====
-- Lemmas about SwapPanes of internal/layout/layout.go.
use ng_mux.Prelude.{
  ◌≡◌, ◌≢◌, inl, inr, refl, true, false, none, some, arith, ◌==◌, if◌then◌else◌, map, contains,
  contains-append, Distinct, Distinct-left, Distinct-right, Distinct-apart, Option-cases, sym, ◌∙◌,
  lookup, is_some, not, ◌&&◌, subst,
}
use mathlib.Core.List.{map-append}
use ng_mux.Layout.{Float64, Rect, PaneId, Node, leaf, split}
use ng_mux.Layout.Geometry.{compute, split_rect}
use ng_mux.Layout.Tiling.{rect_of, lookup-compute}
use ng_mux.Layout.Tree.{TreePath, panes, find, set_pane_at}
use ng_mux.Layout.Panes.{find-contains}
use ng_mux.Layout.Edit.{swap_panes}

-- The transposition of two panes.
abbrev pub exchange : PaneId → PaneId → PaneId → PaneId
exchange a b j = if j == a then b else if j == b then a else j

module _ {F : Type 0} where
  relabel : (PaneId → PaneId) → Node F → Node F
  relabel g (leaf p) = leaf (g p)
  relabel g (split o q a b) = split o q (relabel g a) (relabel g b)

  panes-relabel : (g : PaneId → PaneId) (n : Node F) → panes (relabel g n) ≡ map g (panes n)
  unfolding panes relabel
  panes-relabel g (leaf p) = refl
  panes-relabel g (split o q a b) =
      rw (panes-relabel g a, panes-relabel g b, map-append g (panes a) (panes b))

  relabel-absent :
      (n : Node F) (a b : PaneId)
      → contains a (panes n) ≡ false
      → contains b (panes n) ≡ false
      → relabel (exchange a b) n ≡ n
  unfolding relabel panes
  relabel-absent (leaf p) a b h k = ground arith
  relabel-absent (split o q l r) a b h k = ground (
    arith,
    contains-append a (panes l) (panes r),
    contains-append b (panes l) (panes r),
    relabel-absent l a b,
    relabel-absent r a b,
  )

  -- One of the two panes present: its slot takes the other one.
  set_pane_at-relabel :
      (n : Node F) (a b : PaneId) (p : TreePath)
      → Distinct (panes n)
      → find n a ≡ some p
      → contains b (panes n) ≡ false
      → (set_pane_at p b n ≡ relabel (exchange a b) n)
        × (set_pane_at p b n ≡ relabel (exchange b a) n)
  unfolding relabel panes find set_pane_at
  set_pane_at-relabel (leaf x) a b p d e h = ground arith
  set_pane_at-relabel (split o q l r) a b p d e h =
      let joined = contains-append b (panes l) (panes r) in
      elim (Option-cases (find l a)) [
        | inl miss ↦ elim (Option-cases (find r a)) [
          | inl gone ↦ absurd (ground arith)
          | inr (pr, hit) ↦ ground (
            arith,
            set_pane_at-relabel r a b pr (Distinct-right (panes l) (panes r) d) hit (ground arith),
            relabel-absent l a b,
            relabel-absent l b a,
            find-contains l a,
          )
        ]
        | inr (pl, hit) ↦
            let gone = Distinct-apart a (panes l) (panes r) d (ground (arith, find-contains l a)) in
            ground (
              arith,
              set_pane_at-relabel l a b pl (Distinct-left (panes l) (panes r) d) hit (ground arith),
              relabel-absent r a b,
              relabel-absent r b a,
            )
      ]

  swapped-relabel :
      (n : Node F) (a b : PaneId) (p s : TreePath)
      → a ≢ b
      → Distinct (panes n)
      → find n a ≡ some p
      → find n b ≡ some s
      → set_pane_at s a (set_pane_at p b n) ≡ relabel (exchange a b) n
  unfolding relabel panes find set_pane_at
  swapped-relabel (leaf x) a b p s ne d e h = absurd (ne (ground arith))
  swapped-relabel (split o q l r) a b p s ne d e h =
      let dl = Distinct-left (panes l) (panes r) d in
      let dr = Distinct-right (panes l) (panes r) d in
      let apart_a = Distinct-apart a (panes l) (panes r) d in
      let apart_b = Distinct-apart b (panes l) (panes r) d in
      elim (Option-cases (find l a)) [
        | inl miss_a ↦ elim (Option-cases (find l b)) [
          | inl miss_b ↦ elim (Option-cases (find r a)) [
            | inl gone ↦ absurd (ground arith)
            | inr (pa, hit_a) ↦ elim (Option-cases (find r b)) [
              | inl gone ↦ absurd (ground arith)
              | inr (pb, hit_b) ↦ ground (
                arith,
                swapped-relabel r a b pa pb ne dr hit_a hit_b,
                relabel-absent l a b,
                find-contains l a,
                find-contains l b,
              )
            ]
          ]
          | inr (pb, hit_b) ↦ elim (Option-cases (find r a)) [
            | inl gone ↦ absurd (ground arith)
            | inr (pa, hit_a) ↦ ground (
              arith,
              set_pane_at-relabel r a b pa dr hit_a,
              set_pane_at-relabel l b a pb dl hit_b,
              apart_b,
              find-contains l a,
              find-contains l b,
            )
          ]
        ]
        | inr (pa, hit_a) ↦ elim (Option-cases (find l b)) [
          | inl miss_b ↦ elim (Option-cases (find r b)) [
            | inl gone ↦ absurd (ground arith)
            | inr (pb, hit_b) ↦ ground (
              arith,
              set_pane_at-relabel l a b pa dl hit_a,
              set_pane_at-relabel r b a pb dr hit_b,
              apart_a,
              find-contains l a,
              find-contains l b,
            )
          ]
          | inr (pb, hit_b) ↦ ground (
            arith,
            swapped-relabel l a b pa pb ne dl hit_a hit_b,
            relabel-absent r a b,
            apart_a,
            apart_b,
            find-contains l a,
            find-contains l b,
          )
        ]
      ]

  -- SwapPanes succeeds exactly for two different panes that are both there, in any tree.
  pub swap_panes-is_some :
      (n : Node F) (a b : PaneId)
      → is_some (swap_panes n a b) ≡ (not (a == b) && contains a (panes n) && contains b (panes n))
  unfolding swap_panes
  swap_panes-is_some n a b = ground (arith, find-contains n a, find-contains n b)

module _ (f : Float64) where
  open f use {F}

  rect_of-relabel :
      (n : Node F) (a b j : PaneId) (r : Rect)
      → rect_of f (relabel (exchange a b) n) r j ≡ rect_of f n r (exchange a b j)
  unfolding relabel rect_of
  rect_of-relabel (leaf p) a b j r = ground arith
  rect_of-relabel (split o q x y) a b j r = rw (
    rect_of-relabel x a b j (split_rect f o r q).0,
    rect_of-relabel y a b j (split_rect f o r q).1,
  )

  pub swap_panes_outcome :
      (n : Node F) (a b : PaneId) (outer : Rect)
      → Distinct (panes n)
      → (swap_panes n a a ≡ none)
        × (contains a (panes n) ≡ false → swap_panes n a b ≡ none)
        × (contains b (panes n) ≡ false → swap_panes n a b ≡ none)
        × (a ≢ b
            → contains a (panes n) ≡ true
            → contains b (panes n) ≡ true
            → (m : Node F) × (swap_panes n a b ≡ some m)
              × (panes m ≡ map (exchange a b) (panes n))
              × ((j : PaneId)
                  → lookup j (compute f (some m) outer)
                    ≡ lookup (exchange a b j) (compute f (some n) outer)))
  unfolding swap_panes
  swap_panes_outcome n a b outer d =
      let fa = find-contains n a in
      let fb = find-contains n b in
      (
        ground arith,
        λ h. ground arith,
        λ h. ground arith,
        λ ne h k. elim (Option-cases (find n a)) [
          | inl gone ↦ absurd (ground arith)
          | inr (pa, hit_a) ↦ elim (Option-cases (find n b)) [
            | inl gone ↦ absurd (ground arith)
            | inr (pb, hit_b) ↦
                let made = swapped-relabel n a b pa pb ne d hit_a hit_b in
                (
                  relabel (exchange a b) n,
                  ground (arith, made),
                  panes-relabel (exchange a b) n,
                  λ j.
                      lookup-compute f (relabel (exchange a b) n) outer j
                      ∙ rect_of-relabel n a b j outer
                      ∙ sym (lookup-compute f n outer (exchange a b j)),
                )
          ]
        ],
      )

  -- A SwapPanes that succeeds on a tree without repeated panes exchanges the two in the list of
  -- panes, and gives every pane, within any outer area, the rectangle that its counterpart had.
  pub swap_panes-exchange :
      (n m : Node F) (a b j : PaneId) (outer : Rect)
      → Distinct (panes n)
      → swap_panes n a b ≡ some m
      → (panes m ≡ map (exchange a b) (panes n))
        × (lookup j (compute f (some m) outer) ≡ lookup (exchange a b j) (compute f (some n) outer))
  swap_panes-exchange n m a b j outer d e =
      let present = swap_panes-is_some n a b in
      let (m', made, same, moved) =
        (swap_panes_outcome n a b outer d).3 (ground arith) (ground arith) (ground arith) in
      let is_m : m' ≡ m = cc in
      (
        subst (λ x. panes x ≡ map (exchange a b) (panes n)) is_m same,
        subst
            (λ x.
              lookup j (compute f (some x) outer)
              ≡ lookup (exchange a b j) (compute f (some n) outer))
            is_m (moved j),
      )
