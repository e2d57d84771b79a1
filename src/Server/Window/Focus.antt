-- ===== src/Server/Window/Focus.antt =====
-- The invariant of a window under moving the focus, swapping panes and resizing, of
-- internal/server/window.go.
use ng_mux.Prelude.{
  ℕ, ◌≡◌, ◌≢◌, ◌⊎◌, inl, inr, refl, sym, ap, subst, ◌∙◌, arith, true, false, not, List, [], ◌∷◌,
  some, ◌==◌, contains, Distinct, Bool-cases, map,
}
use ng_mux.Prelude.Int.{ℤ, pos, negsuc}
use ng_mux.Layout.{
  Float64, Axis, Orientation, at_leaf, along, PaneId, Rect, Node, leaf, Result, ok, err, no_room,
}
use ng_mux.Layout
use ng_mux.Layout.Tree.{all_panes, panes}
use ng_mux.Layout.Edit.{swap_panes, neighbor}
use ng_mux.Layout.Swapping.{swap_panes_outcome, exchange}
use ng_mux.Layout.Cycling.{neighbor_inverse}
use ng_mux.Layout.Resize
use ng_mux.Layout.Resizing.{resize-Adjusts}
use ng_mux.Server.Window.{Window, outer, apply_layout, focus, resize_active, swap_active}
use ng_mux.Server.Window.Valid.{IsValid, apply_layout-IsValid, apply_layout-SameShape}
use ng_mux.Server.Window.Moves.{tree-some}

outcome {ℓ} :
    {A : Type ℓ} (r : Result A) → ((e : Layout.Error) × (r ≡ err e)) ⊎ ((a : A) × (r ≡ ok a))
outcome (err e) = inl (e, refl)
outcome (ok a) = inr (a, refl)

contains-map-exchange :
    (a b j : PaneId) (xs : List PaneId)
    → contains j (map (exchange a b) xs) ≡ contains (exchange a b j) xs
contains-map-exchange a b j [] = refl
contains-map-exchange a b j (x ∷ xs) = ground (arith, contains-map-exchange a b j xs)

map-exchange-Distinct :
    (a b : PaneId) (xs : List PaneId) → Distinct xs → Distinct (map (exchange a b) xs)
map-exchange-Distinct a b [] d = tt
map-exchange-Distinct a b (x ∷ xs) d =
    ground (arith, contains-map-exchange a b (exchange a b x) xs, map-exchange-Distinct a b xs d.1)

-- Exchanging two elements of a list keeps what it contains.
contains-exchange :
    (a b j : PaneId) (xs : List PaneId)
    → contains a xs ≡ true
    → contains b xs ≡ true
    → contains (exchange a b j) xs ≡ contains j xs
contains-exchange a b j xs h k = elim (Bool-cases (j == a)) [
  | inl is_a ↦ let same : j ≡ a = ground arith in rw same (ground arith)
  | inr not_a ↦ elim (Bool-cases (j == b)) [
    | inl is_b ↦
        let same : j ≡ b = ground arith in ground (arith, ap (λ (i : ℕ). contains i xs) same)
    | inr not_b ↦ ground arith
  ]
]

module _ {F : Type 0} (w : Window F) (v : IsValid w) where
  -- Neighbor answers, either way round, with a pane of the window.
  neighbor_present :
      (delta : ℤ)
      → (delta ≡ pos 1) ⊎ (delta ≡ negsuc 0)
      → (id : PaneId) × (neighbor w.tree w.active delta ≡ some id)
        × (contains id (all_panes w.tree) ≡ true)
  neighbor_present delta way =
      let (after, before, to_after, _, to_before, _, after_in, before_in) =
        neighbor_inverse w.tree v.distinct w.active v.active_present in
      elim way [
        | inl up ↦ (after, rw up to_after, after_in)
        | inr down ↦ (before, rw down to_before, before_in)
      ]

  pub refocused-IsValid :
      (id : PaneId) → contains id (all_panes w.tree) ≡ true → IsValid (record w { active = id })
  refocused-IsValid id h = record {
    distinct = v.distinct;
    keys_distinct = v.keys_distinct;
    same_panes = v.same_panes;
    active_present = h;
    nonzero = v.nonzero;
  }

  -- Cycling the focus by one, either way, never panics and keeps the window valid.
  pub focus-IsValid :
      (delta : ℤ)
      → (delta ≡ pos 1) ⊎ (delta ≡ negsuc 0)
      → (w' : Window F) × (focus w delta ≡ some w') × IsValid w'
  unfolding focus
  focus-IsValid delta way =
      let (id, found, inside) = neighbor_present delta way in
      (record w { active = id }, rw (found, focus), refocused-IsValid id inside)

  swapped-IsValid :
      (n m : Node F) (other : PaneId)
      → w.tree ≡ some n
      → contains other (all_panes w.tree) ≡ true
      → panes m ≡ map (exchange w.active other) (panes n)
      → IsValid (record w { tree = some m; zoom = 0 })
  unfolding all_panes
  swapped-IsValid n m other is_n inside pm =
      let held : all_panes w.tree ≡ panes n = ap all_panes is_n in
      let ids = all_panes w.tree in
      let made : panes m ≡ map (exchange w.active other) ids =
        pm ∙ ap (map (exchange w.active other)) (sym held) in
      let same = λ (j : PaneId).
        contains-map-exchange w.active other j ids
        ∙ contains-exchange w.active other j ids v.active_present inside in
      record {
        distinct = rw made (map-exchange-Distinct w.active other ids v.distinct);
        keys_distinct = v.keys_distinct;
        same_panes = λ j. rw made (v.same_panes j ∙ sym (same j));
        active_present = rw made (same w.active ∙ v.active_present);
        nonzero = rw made (same 0 ∙ v.nonzero);
      }

module _ (f : Float64) where
  open f use {F}

  swap_active-done :
      (w : Window F) (n m : Node F) (delta : ℤ) (other : PaneId) (cols rows : ℕ)
      → neighbor w.tree w.active delta ≡ some other
      → (other == w.active) ≡ false
      → w.tree ≡ some n
      → swap_panes n w.active other ≡ some m
      → swap_active f w delta cols rows
        ≡ some (apply_layout f (record w { tree = some m; zoom = 0 }) cols rows)
  unfolding swap_active
  swap_active-done w n m delta other cols rows found two is_n done = ground arith

  -- Swapping the active pane with a neighbour, either way, never panics, keeps a valid window
  -- valid, and keeps the focus on the pane that was active.
  pub swap_active-IsValid :
      (w : Window F) (delta : ℤ) (cols rows : ℕ)
      → IsValid w
      → (delta ≡ pos 1) ⊎ (delta ≡ negsuc 0)
      → (w' : Window F) × (swap_active f w delta cols rows ≡ some w')
        × IsValid w'
        × (w'.active ≡ w.active)
  swap_active-IsValid w delta cols rows v way =
      let (other, found, inside) = neighbor_present w v delta way in
      let (n, is_n) = tree-some w v in
      let held : all_panes w.tree ≡ panes n = ap all_panes is_n ∙ (unfold all_panes in refl) in
      elim (Bool-cases (other == w.active)) [
        | inl alone ↦ (w, (unfold swap_active in ground arith), v, refl)
        | inr two ↦
            let ne : w.active ≢ other = ground arith in
            let outcome =
              swap_panes_outcome f n w.active other (outer w cols rows)
                (subst Distinct held v.distinct) in
            let (m, done, pm, _) =
              outcome.3 ne (ap (contains w.active) (sym held) ∙ v.active_present)
                (ap (contains other) (sym held) ∙ inside) in
            let swapped = record w { tree = some m; zoom = 0 } in
            (
              apply_layout f swapped cols rows,
              swap_active-done w n m delta other cols rows found two is_n done,
              apply_layout-IsValid f swapped cols rows
                  (swapped-IsValid w v n m other is_n inside pm),
              (apply_layout-SameShape f swapped cols rows).2,
            )
      ]

  pub retiled-IsValid :
      (w : Window F) (m : Node F) (z : PaneId)
      → IsValid w
      → panes m ≡ all_panes w.tree
      → IsValid (record w { tree = some m; zoom = z })
  unfolding all_panes
  retiled-IsValid w m z v same = record {
    distinct = rw same v.distinct;
    keys_distinct = v.keys_distinct;
    same_panes = λ j. rw same (v.same_panes j);
    active_present = rw same v.active_present;
    nonzero = rw same v.nonzero;
  }

  resized_tree :
      (w : Window F) (dir : Orientation) (delta : ℤ) (room : Rect)
      → IsValid w
      → ((e : Layout.Error) × (Resize.resize f w.tree w.active dir delta room ≡ err e))
        ⊎ ((m : Node F) × (Resize.resize f w.tree w.active dir delta room ≡ ok m)
            × (panes m ≡ all_panes w.tree))
  unfolding Resize.resize
  resized_tree w at_leaf delta room v = inl (_, refl)
  resized_tree w (along dir) delta room v =
      let (n, is_n) = tree-some w v in
      let held : all_panes w.tree ≡ panes n = ap all_panes is_n ∙ (unfold all_panes in refl) in
      elim (outcome (Resize.resize f (some n) w.active (along dir) delta room)) [
        | inl (e, failed) ↦ inl (e, rw is_n failed)
        | inr (m, done) ↦
            inr (m, rw is_n done, (resize-Adjusts f n m w.active dir delta room done).4 ∙ sym held)
      ]

  -- Resizing the active pane keeps a valid window valid, in every direction and for every delta.
  pub resize_active-IsValid :
      (w : Window F) (dir : Orientation) (delta : ℤ) (cols rows : ℕ)
      → IsValid w
      → IsValid (resize_active f w dir delta cols rows)
  unfolding resize_active
  resize_active-IsValid w dir delta cols rows v = elim (Bool-cases (not (w.zoom == 0))) [
    | inl big ↦ rw (big, resize_active) v
    | inr tiled ↦ elim (resized_tree w dir delta (outer w cols rows) v) [
      | inl (e, failed) ↦ rw (tiled, resize_active) (rw failed v)
      | inr (m, done, same) ↦
          rw (tiled, resize_active)
            (rw done (apply_layout-IsValid f _ cols rows (retiled-IsValid w m w.zoom v same)))
    ]
  ]
