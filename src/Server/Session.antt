-- ===== src/Server/Session.antt =====
-- internal/server/session.go: a session, an ordered list of windows one of which is current. A
-- window's pointer is its id, which `next_win` never gives twice.
pub mod Valid
pub mod Splitting
pub mod Stepping
pub mod Reaping
pub mod PaneMoves
use ng_mux.Prelude.{
  ℕ, zero, suc, ◌+◌, ◌-◌, Bool, true, false, not, ◌&&◌, ◌||◌, List, [], ◌∷◌, ◌++◌, Option, none,
  some, if◌then◌else◌, leb, ltb, ◌==◌, length, lookup, erase, is_some, Bytes, get_elem?, set, map,
}
use ng_mux.Prelude.Int.{ℤ, pos, negsuc, ◌+ℤ◌, go_rem, pos_part, ltb_ℤ}
use ng_mux.Layout.{Float64, Axis, along, PaneId}
use ng_mux.Layout.Edit.{can_split}
use ng_mux.Layout
use ng_mux.Server.Pane.{Pane, started_pane}
use ng_mux.Server.Window.{
  Window, wrap_window, outer_for, is_nil, apply_layout, detach_pane, adopt_pane, remove_pane,
  close_all, split,
}
use ng_mux.Server.Window

pub record Session (F : Type 0) : Type 0 where
  pub name : Bytes
  pub windows : List (Window F)
  pub cur : ℕ
  pub next_pane_id : PaneId
  pub next_window_id : ℕ
  pub cols : ℕ
  pub rows : ℕ
  pub paste_buf : Bytes
  pub needs_repaint : Bool
  pub pane_titles : Bool
  pub default_name : Bytes

-- The errors of break-pane and join-pane, and those of a split or a new window.
pub data Error : Type 0 where
  only_pane no_such_window same_window no_pane not_enough_room start_failed : Error
  layout_error : Layout.Error → Error
  window_error : Window.Error → Error

abbrev pub no_windows {ℓ} : {A : Type ℓ} → List A → Bool
no_windows [] = true
no_windows (w ∷ ws) = false

-- append(ws[:i:i], ws[i+1:]...)
abbrev pub without_at {ℓ} : {A : Type ℓ} → List A → ℕ → List A
without_at [] i = []
without_at (w ∷ ws) zero = ws
without_at (w ∷ ws) (suc i) = w ∷ without_at ws i

-- A size, or the default for one that is not positive.
abbrev pub size_or : ℤ → ℕ → ℕ
size_or n default = if ltb_ℤ (pos 0) n then pos_part n else default

module _ {F : Type 0} where
  -- The index of the window with an id.
  abbrev pub position : ℕ → List (Window F) → Option ℕ
  position id [] = none
  position id (w ∷ ws) =
      if w.id == id then some 0 else elim (position id ws) [ none ↦ none | some i ↦ some (i + 1) ]

  unfoldable pub content_rows : Session F → ℕ
  content_rows s = if leb s.rows 1 then s.rows else s.rows - 1

  unfoldable pub next_pane : Session F → Session F × PaneId
  next_pane s = (record s { next_pane_id = s.next_pane_id + 1 }, s.next_pane_id + 1)

  unfoldable pub next_win : Session F → Session F × ℕ
  next_win s = (record s { next_window_id = s.next_window_id + 1 }, s.next_window_id)

  -- The window put at the end and made current.
  abbrev pub append_window : Session F → Window F → Session F
  append_window s w = record s {
    windows = s.windows ++ w ∷ [];
    cur = length (s.windows ++ w ∷ []) - 1;
  }

  -- spawnWindow; `starts` is whether the pty of its pane starts.
  unfoldable pub spawn_window : Session F → ℕ → ℕ → Bool → Session F × Option Error
  unfolding next_win next_pane
  spawn_window s cols rows starts =
      let (s1, wid) = next_win s in
      let (s2, pid) = next_pane s1 in
      if starts
      then (
        append_window s2 (record (wrap_window wid s.default_name (started_pane pid cols rows)) {
          titles = s.pane_titles;
        }),
        none,
      )
      else (s2, some start_failed)

  abbrev pub empty_session : Bytes → ℕ → ℕ → Bool → Bytes → Session F
  empty_session name cols rows titles default_name = record {
    name = name;
    windows = [];
    cur = 0;
    next_pane_id = 0;
    next_window_id = 0;
    cols = cols;
    rows = rows;
    paste_buf = [];
    needs_repaint = false;
    pane_titles = titles;
    default_name = default_name;
  }

  -- newSession; `none` where the first pane does not start.
  unfoldable pub new_session : Bytes → ℤ → ℤ → Bool → Bytes → Bool → Option (Session F)
  new_session name cols rows titles default_name starts =
      let s = empty_session name (size_or cols 80) (size_or rows 24) titles default_name in
      let (s', failed) = spawn_window s s.cols (content_rows s) starts in
      elim failed [ none ↦ some s' | some _ ↦ none ]

  -- removeWindowAt; the negative index of an emptied list is cut to 0 there too.
  unfoldable pub remove_window_at : Session F → ℕ → Session F
  remove_window_at s i =
      let ws = without_at s.windows i in
      record s { windows = ws; cur = if leb (length ws) s.cur then length ws - 1 else s.cur }

  unfoldable pub remove_window : Session F → ℕ → Session F
  remove_window s id = elim (position id s.windows) [ none ↦ s | some i ↦ remove_window_at s i ]

  -- current: the session, whose index is put back in range, and the window.
  unfoldable pub current : Session F → Session F × Option (Window F)
  current s =
      let s' =
        if no_windows s.windows || ltb s.cur (length s.windows) then s else record s { cur = 0 } in
      (s', get_elem? s'.windows s'.cur)

  unfoldable pub select_window : Session F → ℤ → Session F
  select_window s idx =
      if not (ltb_ℤ idx (pos 0)) && ltb_ℤ idx (pos (length s.windows))
      then record s { cur = pos_part idx }
      else s

  unfoldable pub step_window : Session F → ℤ → Session F
  step_window s delta =
      let n = length s.windows in
      if ltb 0 n
      then record s { cur = pos_part (go_rem (pos s.cur +ℤ go_rem delta n +ℤ pos n) n) }
      else s

  -- kill-window: the session, and the panes that were closed; `none` is an index out of range.
  unfoldable pub kill_window : Session F → Option (Session F × List Pane)
  kill_window s = if no_windows s.windows then some (s, []) else elim (get_elem? s.windows s.cur) [
    | none ↦ none
    | some victim ↦ some (remove_window_at s s.cur, (close_all victim).1)
  ]

  -- withWindow for a handler that changes the window alone.
  unfoldable pub with_window : Session F → (Window F → ℕ → ℕ → Window F) → Session F
  unfolding current
  with_window s g =
      let (s', found) = current s in
      elim found [
        | none ↦ s'
        | some w ↦ record s' { windows = set s'.windows s'.cur (g w s'.cols (content_rows s')) }
      ]

  -- What a window that lost a pane leaves: nothing, if it was its last one.
  abbrev pub drop_empty : Session F → ℕ → Bool → Session F
  drop_empty s id true = remove_window s id
  drop_empty s id false = s

module _ (f : Float64) where
  open f use {F}

  unfoldable pub resize : Session F → ℕ → ℕ → Session F × Bool
  resize s cols rows =
      if cols == 0 || rows == 0 || (cols == s.cols && rows == s.rows)
      then (s, false)
      else (let s' = record s { cols = cols; rows = rows; needs_repaint = true } in
          (
            record s' { windows = map (λ w. apply_layout f w cols (content_rows s')) s.windows },
            true,
          ))

  -- The handler of split-window on the current window, with the next pane id.
  unfoldable pub split_current :
      Session F → Option (Window F) → Axis → Bool → Session F × Option Error
  unfolding next_pane
  split_current s none dir starts = (s, none)
  split_current s (some w) dir starts =
      let (s2, pid) = next_pane s in
      let (w', failed) = split f w pid dir s2.cols (content_rows s2) starts in
      (
        record s2 { windows = set s2.windows s2.cur w' },
        elim failed [ none ↦ none | some e ↦ some (window_error e) ],
      )

  unfoldable pub split_window : Session F → Axis → Bool → Session F × Option Error
  split_window s dir starts = split_current (current s).0 (current s).1 dir starts
