-- ===== src/Server/Pane.antt =====
-- internal/server/pane.go: the state of a pane that the window and session logic uses. The emulator
-- and the pty are seen through what that logic reads of them: the size last set, the length of the
-- history, the count of scrolled lines and the input modes.
use ng_mux.Prelude.{ℕ, ◌-◌, Bool, true, false, Option, none, some, if◌then◌else◌, leb}
use ng_mux.Server.CopyMode.{CopyState, sync, key}
use ng_mux.Server.MouseEncode.{InputModes}
use ng_mux.Layout.{PaneId}
use ng_mux.Prelude.{Bytes}

pub record Pane : Type 0 where
  pub id : PaneId
  pub win : ℕ
  pub cols : ℕ
  pub rows : ℕ
  pub copy : Option CopyState
  pub closed : Bool
  pub output : Bool
  pub scrolled_total : ℕ
  pub history_len : ℕ
  pub modes : InputModes

abbrev pub no_modes : InputModes
no_modes = record {
  mouse_x10 = false;
  mouse_button = false;
  mouse_motion = false;
  mouse_any = false;
  mouse_sgr = false;
  alt_screen = false;
  app_cursor = false;
  bracketed_paste = false;
}

-- startPane, once the pty has started.
abbrev pub started_pane : PaneId → ℕ → ℕ → Pane
started_pane id cols rows = record {
  id = id;
  win = 0;
  cols = cols;
  rows = rows;
  copy = none;
  closed = false;
  output = false;
  scrolled_total = 0;
  history_len = 0;
  modes = no_modes;
}

unfoldable pub resize_copy : CopyState → ℕ → ℕ → CopyState
resize_copy c cols rows = record c {
  rows = rows;
  cols = cols;
  cy = if leb rows c.cy then rows - 1 else c.cy;
}

unfoldable pub resize : Pane → ℕ → ℕ → Pane
unfolding resize_copy
resize p cols rows = record p {
  cols = cols;
  rows = rows;
  copy = elim (p.copy) [ none ↦ none | some c ↦ some (resize_copy c cols rows) ];
}

unfoldable pub sync_copy : Pane → Pane
sync_copy p = record p {
  copy = elim (p.copy) [ none ↦ none | some c ↦ some (sync c p.scrolled_total p.history_len) ];
}

-- copyKey; the flags are whether the selection is to be copied, and whether copy-mode ended.
unfoldable pub copy_key : Pane → Bytes → Pane × Bool × Bool
unfolding sync_copy
copy_key p d = elim ((sync_copy p).copy) [
  | none ↦ (p, false, false)
  | some c ↦
      let r = key c d p.history_len in
      (record p { copy = if r.exit then none else some r.state }, r.yank, r.exit)
]

unfoldable pub close : Pane → Pane
close p = record p { closed = true }
