-- ===== src/Server/CopyMode.antt =====
-- internal/server/copymode.go: the scrollback mode of a pane, as a state machine over keys. An int64
-- line number is an integer, and a screen coordinate a number; neither comes near its machine range.
pub mod Anchor
pub mod Bounds
use ng_mux.Prelude.{
  ℕ, ◌+◌, ◌-◌, Bool, true, false, ◌&&◌, ◌||◌, List, [], ◌∷◌, Option, none, some, leb, ltb, ◌==◌,
  if◌then◌else◌, Bytes, bytes_eq, codes,
}
use ng_mux.Prelude.Int.{ℤ, pos, negsuc, ◌+ℤ◌, ◌-ℤ◌, ltb_ℤ, pos_part}

pub record CopyState : Type 0 where
  pub offset : ℕ
  pub rows : ℕ
  pub cols : ℕ
  pub seen : ℕ
  pub cx : ℕ
  pub cy : ℕ
  pub has_sel : Bool
  pub ax : ℕ
  pub a_line : ℤ

-- lineAt: the absolute number of the line that viewport row `y` shows.
unfoldable pub line_at : CopyState → ℤ → ℤ
line_at c y = pos c.seen +ℤ y -ℤ pos c.offset

-- rowOf: the viewport row that shows an absolute line.
unfoldable pub row_of : CopyState → ℤ → ℤ
row_of c n = n -ℤ pos c.seen +ℤ pos c.offset

unfoldable pub set_anchor : CopyState → ℕ → ℕ → CopyState
set_anchor c x y = record c { has_sel = true; ax = x; a_line = line_at c (pos y) }

unfoldable pub new_copy_state : ℕ → ℕ → CopyState
new_copy_state cols rows = record {
  offset = 0;
  rows = rows;
  cols = cols;
  seen = 0;
  cx = 0;
  cy = rows - 1;
  has_sel = false;
  ax = 0;
  a_line = pos 0;
}

unfoldable pub sync : CopyState → ℕ → ℕ → CopyState
sync c total hist_len =
    if leb total c.seen
    then record c { seen = total }
    else (let moved = c.offset + (total - c.seen) in
        record c { seen = total; offset = if ltb hist_len moved then hist_len else moved })

-- The rendered selection, from the anchor to the cursor.
pub record Selection : Type 0 where
  pub x0 : ℕ
  pub y0 : ℕ
  pub x1 : ℕ
  pub y1 : ℕ

unfoldable pub selection : CopyState → Option Selection
selection c =
    if c.has_sel
    then (let ay = row_of c c.a_line in
        if ltb_ℤ ay (pos 0)
        then some (record { x0 = 0; y0 = 0; x1 = c.cx; y1 = c.cy })
        else if leb c.rows (pos_part ay)
        then some (record { x0 = c.cols - 1; y0 = c.rows - 1; x1 = c.cx; y1 = c.cy })
        else some (record { x0 = c.ax; y0 = pos_part ay; x1 = c.cx; y1 = c.cy }))
    else none

abbrev pub esc : ℕ
esc = 0x1b

-- isSeq: ESC [ and a final byte.
unfoldable pub is_seq : Bytes → ℕ → Bool
is_seq data_bytes final = bytes_eq data_bytes (esc ∷ b'[' ∷ final ∷ [])

-- isPage: ESC [ 5 ~ or ESC [ 6 ~.
unfoldable pub is_page : Bytes → Bool → Bool
is_page data_bytes up = bytes_eq data_bytes (esc ∷ b'[' ∷ (if up then b'5' else b'6') ∷ b'~' ∷ [])

unfoldable pub move_vertical : CopyState → ℤ → ℕ → CopyState
move_vertical c dir hist_len =
    let ny = pos c.cy +ℤ dir in
    if ltb_ℤ ny (pos 0)
    then (if ltb c.offset hist_len then record c { offset = c.offset + 1 } else c)
    else if leb c.rows (pos_part ny)
    then (if ltb 0 c.offset then record c { offset = c.offset - 1 } else c)
    else record c { cy = pos_part ny }

-- What `key` returns, with the new state.
pub record KeyResult : Type 0 where
  pub state : CopyState
  pub exit : Bool
  pub yank : Bool

abbrev pub stay : CopyState → KeyResult
stay c = record { state = c; exit = false; yank = false }

-- The switch of `key` on what the chunk is.
pub data Key : Type 0 where
  quit oldest newest mark accept up down right left page_up page_down other : Key

unfoldable pub key_of : Bytes → Key
unfolding is_seq is_page
key_of d =
    if bytes_eq d (esc ∷ []) || bytes_eq d (codes "q") || bytes_eq d (codes "Q")
    then quit
    else if bytes_eq d (codes "g")
    then oldest
    else if bytes_eq d (codes "G")
    then newest
    else if bytes_eq d (codes " ")
    then mark
    else if bytes_eq d (0x0d ∷ []) || bytes_eq d (codes "\n") || bytes_eq d (codes "y")
    then accept
    else if is_seq d b'A'
    then up
    else if is_seq d b'B'
    then down
    else if is_seq d b'C'
    then right
    else if is_seq d b'D'
    then left
    else if is_page d true
    then page_up
    else if is_page d false
    then page_down
    else other

unfoldable pub apply_key : Key → CopyState → ℕ → KeyResult
apply_key quit c hist_len = record { state = c; exit = true; yank = false }
apply_key oldest c hist_len = stay (record c { offset = hist_len; cy = 0 })
apply_key newest c hist_len = stay (record c { offset = 0; cy = c.rows - 1 })
apply_key mark c hist_len = stay (set_anchor c c.cx c.cy)
apply_key accept c hist_len = record { state = c; exit = true; yank = c.has_sel }
apply_key up c hist_len = stay (move_vertical c (negsuc 0) hist_len)
apply_key down c hist_len = stay (move_vertical c (pos 1) hist_len)
apply_key right c hist_len = stay (if ltb c.cx (c.cols - 1) then record c { cx = c.cx + 1 } else c)
apply_key left c hist_len = stay (if ltb 0 c.cx then record c { cx = c.cx - 1 } else c)
apply_key page_up c hist_len =
    stay (record c {
      offset = if ltb hist_len (c.offset + c.rows) then hist_len else c.offset + c.rows;
    })
apply_key page_down c hist_len = stay (record c { offset = c.offset - c.rows })
apply_key other c hist_len = stay c

unfoldable pub key : CopyState → Bytes → ℕ → KeyResult
key c d hist_len = apply_key (key_of d) c hist_len
