-- ===== src/Server/Session/Reaping.antt =====
-- reapOne of internal/server/session.go and kill-window on a valid session.
use ng_mux.Prelude.{
  empty_or_not, ℕ, zero, suc, ◌≤◌, ◌<◌, ◌≡◌, ◌⊎◌, inl, inr, refl, sym, ap, subst, ◌∙◌, arith, true,
  false, List, [], ◌∷◌, none, some, if◌then◌else◌, ◌==◌, length, lookup, erase, keys, is_some,
  contains, without, without-absent, contains-without, contains-keys, keys-erase, Option-cases,
  Bool-cases, All, get_elem?,
}
use ng_mux.Layout.{Float64, PaneId}
use ng_mux.Layout.Tree.{all_panes}
use ng_mux.Server.Pane.{Pane}
use ng_mux.Server.Window.{Window, remove_pane, drop_leaf, is_nil, close_all}
use ng_mux.Server.Window.Valid.{apply_layout-SameShape, apply_layout-id}
use ng_mux.Server.Window.Changes.{remove_pane-IsValid}
use ng_mux.Server.Session.{
  Session, no_windows, without_at, position, remove_window, remove_window_at, kill_window,
  drop_empty, content_rows,
}
use ng_mux.Server.Session.PaneMoves.{fold_out, emptied, reap_one}
use ng_mux.Server.Session.Valid.{Member, IsValid, remove_window_at-IsValid}

bounded_of_contains :
    (n : ℕ) (xs : List ℕ) → ((j : ℕ) → contains j xs ≡ true → j ≤ n) → All (λ j. j ≤ n) xs
bounded_of_contains n [] h = tt
bounded_of_contains n (x ∷ xs) h =
    (h x (ground arith), bounded_of_contains n xs (λ j k. h j (ground arith)))

bounded_at : (n j : ℕ) (xs : List ℕ) → All (λ i. i ≤ n) xs → contains j xs ≡ true → j ≤ n
bounded_at n j [] h e = absurd (ground arith)
bounded_at n j (x ∷ xs) h e = ground (arith, h.0, bounded_at n j xs h.1)

module _ {F : Type 0} where
  drop_leaf-keeps :
      (w : Window F) (t : PaneId) → ((drop_leaf w t).panes ≡ w.panes) × ((drop_leaf w t).id ≡ w.id)
  unfolding drop_leaf
  drop_leaf-keeps w t = ground arith

  -- The list without the first window that has the id.
  abbrev remove_first : ℕ → List (Window F) → List (Window F)
  remove_first id [] = []
  remove_first id (w ∷ ws) = if w.id == id then ws else w ∷ remove_first id ws

  remove_first-position :
      (id i : ℕ) (ws : List (Window F))
      → position id ws ≡ some i
      → without_at ws i ≡ remove_first id ws
  remove_first-position id i [] e = absurd (ground arith)
  remove_first-position id i (w ∷ ws) e = elim (Bool-cases (w.id == id)) [
    | inl here ↦ let first : i ≡ 0 = ground arith in rw (here, first) refl
    | inr on ↦ elim (Option-cases (position id ws)) [
      | inl gone ↦ absurd (ground arith)
      | inr (k, found) ↦
          let later : i ≡ suc k = ground arith in
          rw (on, later) (ap (λ (l : List (Window F)). w ∷ l) (remove_first-position id k ws found))
    ]
  ]

  remove_first-absent :
      (id : ℕ) (ws : List (Window F)) → position id ws ≡ none → remove_first id ws ≡ ws
  remove_first-absent id [] e = refl
  remove_first-absent id (w ∷ ws) e = elim (Bool-cases (w.id == id)) [
    | inl here ↦ absurd (ground arith)
    | inr on ↦ elim (Option-cases (position id ws)) [
      | inl gone ↦ rw on (ap (λ (l : List (Window F)). w ∷ l) (remove_first-absent id ws gone))
      | inr (k, found) ↦ absurd (ground arith)
    ]
  ]

  remove_window-IsValid :
      (s : Session F) (id : ℕ)
      → All (Member s.next_pane_id s.next_window_id) (remove_first id s.windows)
      → (s.windows ≡ []) ⊎ (s.cur < length s.windows)
      → IsValid (remove_window s id)
  unfolding remove_window remove_window_at
  remove_window-IsValid s id h inside = elim (Option-cases (position id s.windows)) [
    | inl none_found ↦
        rw (none_found, remove_window)
          (record {
            members =
                subst (All (Member s.next_pane_id s.next_window_id))
                  (remove_first-absent id s.windows none_found) h;
            cur_inside = inside;
          })
    | inr (i, found) ↦
        rw (found, remove_window)
          (record {
            members =
                subst (All (Member s.next_pane_id s.next_window_id))
                  (sym (remove_first-position id i s.windows found)) h;
            cur_inside = elim (empty_or_not (without_at s.windows i)) [
              | inl none_left ↦ inl none_left
              | inr more ↦ inr (ground arith)
            ];
          })
  ]

  get_total :
      (ws : List (Window F)) (i : ℕ) → i < length ws → (w : Window F) × (get_elem? ws i ≡ some w)
  get_total [] i h = absurd (omega arith)
  get_total (w ∷ ws) zero h = (w, refl)
  get_total (w ∷ ws) (suc i) h = get_total ws i (omega arith)

  -- kill-window on a valid session never indexes out of range, and leaves the session valid,
  -- down to one with no windows.
  pub kill_window-IsValid :
      (s : Session F)
      → IsValid s
      → (s' : Session F) × (closed : List Pane) × (kill_window s ≡ some (s', closed)) × IsValid s'
  unfolding kill_window
  kill_window-IsValid s v = elim (Bool-cases (no_windows s.windows)) [
    | inl none_left ↦ (s, [], rw (none_left, kill_window) refl, v)
    | inr more ↦ elim (v.cur_inside) [
      | inl e ↦ absurd (ground (arith, ap (λ (l : List (Window F)). no_windows l) e))
      | inr h ↦
          let (victim, found) = get_total s.windows s.cur h in
          (
            remove_window_at s s.cur,
            (close_all victim).1,
            rw (more, kill_window) (rw found),
            remove_window_at-IsValid s s.cur v,
          )
    ]
  ]

module _ (f : Float64) where
  open f use {F}

  remove_pane-keeps :
      (w : Window F) (t : PaneId) (cols rows : ℕ)
      → (keys (remove_pane f w t cols rows).0.panes ≡ without t (keys w.panes))
        × ((remove_pane f w t cols rows).0.id ≡ w.id)
  unfolding remove_pane
  remove_pane-keeps w t cols rows = elim (Option-cases (lookup t w.panes)) [
    | inl missing ↦
        rw (missing, remove_pane)
          (
            sym (without-absent t (keys w.panes) (contains-keys t w.panes ∙ ap is_some missing)),
            refl,
          )
    | inr (p, here) ↦ elim (Bool-cases (is_nil (erase t w.panes))) [
      | inl last ↦ rw (here, remove_pane) (rw last (keys-erase t w.panes, refl))
      | inr more ↦
          let w' = drop_leaf (record w { panes = erase t w.panes }) t in
          let kept = drop_leaf-keeps (record w { panes = erase t w.panes }) t in
          rw (here, remove_pane)
            (rw more (
              (apply_layout-SameShape f w' cols rows).1 ∙ ap keys kept.0 ∙ keys-erase t w.panes,
              apply_layout-id f w' cols rows ∙ kept.1,
            ))
    ]
  ]

  -- A window that keeps a pane is still a member.
  removed-Member :
      (lp nw : ℕ) (w : Window F) (t : PaneId) (cols rows : ℕ)
      → Member lp nw w
      → is_nil (remove_pane f w t cols rows).0.panes ≡ false
      → Member lp nw (remove_pane f w t cols rows).0
  removed-Member lp nw w t cols rows m more = elim (remove_pane-IsValid f w t cols rows m.valid) [
    | inl (_, none_left, _) ↦ absurd (ground (arith, ap is_nil none_left))
    | inr (_, v) ↦
        let (kept, same_id) = remove_pane-keeps w t cols rows in
        record {
          valid = v;
          panes_given =
              bounded_of_contains lp (all_panes (remove_pane f w t cols rows).0.tree) λ j h.
                bounded_at lp j (all_panes w.tree) m.panes_given (
                  ground (
                    arith,
                    v.same_panes j,
                    ap (contains j) kept,
                    contains-without t j (keys w.panes),
                    m.valid.same_panes j,
                  ));
          id_given = rw same_id m.id_given;
        }
  ]

  folded-members :
      (lp nw win : ℕ) (t : PaneId) (cols rows : ℕ) (ws : List (Window F))
      → All (Member lp nw) ws
      → emptied f win (fold_out f win t cols rows ws) ≡ false
      → All (Member lp nw) (fold_out f win t cols rows ws)
  folded-members lp nw win t cols rows [] h e = tt
  folded-members lp nw win t cols rows (w ∷ ws) h e = elim (Bool-cases (w.id == win)) [
    | inl here ↦ rw here (
      removed-Member lp nw w t cols rows h.0 (ground (arith, (remove_pane-keeps w t cols rows).1)),
      h.1,
    )
    | inr on ↦ rw on (h.0, folded-members lp nw win t cols rows ws h.1 (ground arith))
  ]

  survivors-members :
      (lp nw win : ℕ) (t : PaneId) (cols rows : ℕ) (ws : List (Window F))
      → All (Member lp nw) ws
      → All (Member lp nw) (remove_first win (fold_out f win t cols rows ws))
  survivors-members lp nw win t cols rows [] h = tt
  survivors-members lp nw win t cols rows (w ∷ ws) h = elim (Bool-cases (w.id == win)) [
    | inl here ↦
        let same : ((remove_pane f w t cols rows).0.id == win) ≡ true =
          ground (arith, (remove_pane-keeps w t cols rows).1) in
        rw here (rw same h.1)
    | inr on ↦ rw on (rw on (h.0, survivors-members lp nw win t cols rows ws h.1))
  ]

  length-fold_out :
      (win : ℕ) (t : PaneId) (cols rows : ℕ) (ws : List (Window F))
      → length (fold_out f win t cols rows ws) ≡ length ws
  length-fold_out win t cols rows [] = refl
  length-fold_out win t cols rows (w ∷ ws) = ground (arith, length-fold_out win t cols rows ws)

  nil_of_length : {A : Type 0} (xs : List A) → length xs ≡ 0 → xs ≡ []
  nil_of_length [] e = refl
  nil_of_length (x ∷ xs) e = absurd (omega arith)

  folded-inside :
      (s : Session F) (win : ℕ) (t : PaneId)
      → IsValid s
      → let ws = fold_out f win t s.cols (content_rows s) s.windows in
        (ws ≡ []) ⊎ (s.cur < length ws)
  folded-inside s win t v =
      let same = length-fold_out win t s.cols (content_rows s) s.windows in
      elim (v.cur_inside) [
        | inl e ↦ inl (
            nil_of_length (fold_out f win t s.cols (content_rows s) s.windows) (same ∙ ap length e))
        | inr h ↦ inr (omega (arith, same))
      ]

  reaped-IsValid :
      (s : Session F) (win : ℕ) (t : PaneId)
      → IsValid s
      → let ws = fold_out f win t s.cols (content_rows s) s.windows in
        IsValid (drop_empty (record s { windows = ws }) win (emptied f win ws))
  reaped-IsValid s win t v =
      let ws = fold_out f win t s.cols (content_rows s) s.windows in
      elim (Bool-cases (emptied f win ws)) [
        | inl gone ↦ rw gone (
            remove_window-IsValid (record s { windows = ws }) win
              (survivors-members s.next_pane_id s.next_window_id win t s.cols (content_rows s)
                s.windows v.members)
              (folded-inside s win t v))
        | inr kept ↦ rw kept (record {
          members =
              folded-members s.next_pane_id s.next_window_id win t s.cols (content_rows s) s.windows
                v.members kept;
          cur_inside = folded-inside s win t v;
        })
      ]

  -- Reaping an exited pane of any window id leaves a valid session valid, asks for a repaint,
  -- and reports the session empty exactly when it has no windows left.
  pub reap_one-IsValid :
      (s : Session F) (win : ℕ) (t : PaneId)
      → IsValid s
      → let (s', empty) = reap_one f s (some win) t in
        IsValid s' × (s'.needs_repaint ≡ true) × (empty ≡ no_windows s'.windows)
  unfolding reap_one
  reap_one-IsValid s win t v =
      let r = reaped-IsValid s win t v in
      (record { members = r.members; cur_inside = r.cur_inside }, refl, refl)
