-- ===== src/Server/Session/PaneMoves.antt =====
-- breakPane, joinPane and reapOne of internal/server/session.go: panes that change their window, and
-- panes that leave.
use ng_mux.Prelude.{
  ℕ, ◌+◌, Bool, true, false, not, ◌||◌, List, [], ◌∷◌, Option, none, some, if◌then◌else◌, ◌==◌,
  length, lookup, erase, get_elem?, set,
}
use ng_mux.Prelude.Int.{ℤ, pos, pos_part, ltb_ℤ}
use ng_mux.Layout.{Float64, Axis, along, PaneId}
use ng_mux.Layout.Edit.{can_split}
use ng_mux.Layout
use ng_mux.Server.Pane.{Pane}
use ng_mux.Server.Window.{
  Window, wrap_window, outer_for, is_nil, apply_layout, detach_pane, adopt_pane, remove_pane,
}
use ng_mux.Server.Session.{
  Session, Error, only_pane, no_such_window, same_window, no_pane, not_enough_room, layout_error,
  no_windows, content_rows, next_win, append_window, position, current, drop_empty,
}

module _ (f : Float64) where
  open f use {F}

  -- breakPane with the current window `w`, once detachPane has given `w'` and the pane.
  unfoldable pub break_off : Session F → Window F → Option Pane → Session F × Option Error
  unfolding next_win
  break_off s w' none = (record s { windows = set s.windows s.cur w' }, some only_pane)
  break_off s w' (some p) =
      let (s3, wid) = next_win (record s { windows = set s.windows s.cur w' }) in
      let nw = record (wrap_window wid s.default_name p) { titles = s.pane_titles } in
      (append_window s3 (apply_layout f nw s3.cols (content_rows s)), none)

  unfoldable pub break_current : Session F → Option (Window F) → Session F × Option Error
  break_current s none = (s, none)
  break_current s (some w) =
      let (w', left) = detach_pane f w w.active s.cols (content_rows s) in break_off s w' left

  unfoldable pub break_pane : Session F → Session F × Option Error
  break_pane s = break_current (current s).0 (current s).1

  -- The source window of join-pane without the pane.
  abbrev pub give_up : Window F → PaneId → ℕ → ℕ → Window F
  give_up src id cols rows =
      if length src.panes == 1
      then record src { panes = erase id src.panes; tree = none }
      else (detach_pane f src id cols rows).0

  -- The loop that makes the window current again after the list may have shifted.
  abbrev pub refocus : Session F → ℕ → Session F
  refocus s id = elim (position id s.windows) [ none ↦ s | some i ↦ record s { cur = i } ]

  -- joinPane from the window at `idx`; two windows of the list are the same at the same index.
  unfoldable pub join_pane : Session F → ℤ → Axis → Session F × Option Error
  unfolding current
  join_pane s idx dir =
      let (s1, found) = current s in
      let rows = content_rows s1 in
      let i = pos_part idx in
      elim found [
        | none ↦ (s1, none)
        | some dst ↦
            if ltb_ℤ idx (pos 0) || not (ltb_ℤ idx (pos (length s1.windows)))
            then (s1, some no_such_window)
            else if i == s1.cur
            then (s1, some same_window)
            else elim (get_elem? s1.windows i) [
              | none ↦ (s1, some no_such_window)
              | some src ↦ elim (lookup src.active src.panes) [
                | none ↦ (s1, some no_pane)
                | some p ↦
                    if can_split f dst.tree dst.active (along dir)
                      (outer_for dst s1.cols rows (length dst.panes + 1))
                    then (let s2 = record s1 {
                      windows = set s1.windows i (give_up src p.id s1.cols rows);
                    } in
                        elim (adopt_pane f dst p dir s1.cols rows) [
                          | Layout.err e ↦ (s2, some (layout_error e))
                          | Layout.ok dst' ↦
                              let s3 = record s2 { windows = set s2.windows s1.cur dst' } in
                              (refocus (drop_empty s3 src.id (length src.panes == 1)) dst.id, none)
                        ])
                    else (s1, some not_enough_room)
              ]
            ]
      ]

  -- The window with the given id after removePane, in its place.
  abbrev pub fold_out : ℕ → PaneId → ℕ → ℕ → List (Window F) → List (Window F)
  fold_out win id cols rows [] = []
  fold_out win id cols rows (w ∷ ws) =
      if w.id == win
      then (remove_pane f w id cols rows).0 ∷ ws
      else w ∷ fold_out win id cols rows ws

  -- Whether the window with the given id has no panes.
  abbrev pub emptied : ℕ → List (Window F) → Bool
  emptied win [] = false
  emptied win (w ∷ ws) = if w.id == win then is_nil w.panes else emptied win ws

  -- reapOne for a pane in the window `win`; also whether the session is empty now. A window that has
  -- left the session is not in the list, and nothing of the session depends on it.
  unfoldable pub reap_one : Session F → Option ℕ → PaneId → Session F × Bool
  reap_one s none id = (s, no_windows s.windows)
  reap_one s (some win) id =
      let ws = fold_out win id s.cols (content_rows s) s.windows in
      let s1 = drop_empty (record s { windows = ws }) win (emptied win ws) in
      let s2 = record s1 { needs_repaint = true } in (s2, no_windows s2.windows)
