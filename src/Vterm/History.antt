-- ===== src/Vterm/History.antt =====
-- internal/vterm/vterm.go: the scrollback of a pane, a ring of rows, and the window that copy-mode
-- shows of it. A row of a screen is a list of cells, and a screen is the list of its rows.
pub mod Ring
pub mod View
pub mod Memory
use ng_mux.Prelude.{
  ℕ, zero, suc, ◌+◌, ◌-◌, ◌%◌, Bool, true, false, not, ◌&&◌, ◌||◌, List, [], ◌∷◌, ◌++◌,
  if◌then◌else◌, ltb, ◌==◌, length, get_or, set, replicate, map, take, tabulate,
}
use ng_mux.Prelude.Int.{ℤ, pos, negsuc, pos_part}
use ng_mux.Vterm.Cells.{Glyph, Cell, blank_cell, plain_blank, to_cell}

abbrev pub Row : Type 0
Row = List Cell

-- The fields of Term that are about scrollback.
pub record History : Type 0 where
  pub cap : ℕ
  pub buf : List Row
  pub head : ℕ
  pub len : ℕ
  pub scrolled_total : ℕ

-- The part of New that is about scrollback, for a capacity.
unfoldable pub new_history : ℕ → History
new_history cap = record {
  cap = cap;
  buf = replicate cap [];
  head = 0;
  len = 0;
  scrolled_total = 0;
}

-- The loop that drops trailing plain blanks: how many of the first `n` glyphs are stored.
unfoldable pub text_length : ℕ → List Glyph → ℕ
text_length zero gs = 0
text_length (suc n) gs =
    if plain_blank (get_or gs n (record { char = 0; mode = 0; fg = 0; bg = 0 }))
    then text_length n gs
    else suc n

unfoldable pub stored_row : List Glyph → Row
stored_row gs = map to_cell (take (text_length (length gs) gs) gs)

-- The slot that pushHistory fills, and the ring with that slot in use.
unfoldable pub slot_of : History → ℕ
slot_of h = if ltb h.len (length h.buf) then (h.head + h.len) % length h.buf else h.head

unfoldable pub push_row : History → Row → History
unfolding slot_of
push_row h row =
    if h.cap == 0
    then h
    else if ltb h.len (length h.buf)
    then record h {
      len = h.len + 1;
      scrolled_total = h.scrolled_total + 1;
      buf = set h.buf (slot_of h) row;
    }
    else record h {
      head = (h.head + 1) % length h.buf;
      scrolled_total = h.scrolled_total + 1;
      buf = set h.buf (slot_of h) row;
    }

unfoldable pub push_history : History → List Glyph → History
push_history h gs = push_row h (stored_row gs)

unfoldable pub history_row : History → ℕ → Row
history_row h i = get_or h.buf ((h.head + i) % length h.buf) []

-- The newest `keep` rows, in a ring of `n` slots.
unfoldable pub with_limit : History → ℕ → ℕ → History
with_limit h n keep = record h {
  buf = tabulate keep (λ i. history_row h (h.len - keep + i)) ++ replicate (n - keep) [];
  head = 0;
  len = keep;
  cap = n;
}

-- SetHistoryLimit; a limit below 0 counts as 0.
unfoldable pub set_history_limit : History → ℤ → History
unfolding with_limit
set_history_limit h limit =
    let n = pos_part limit in
    if n == h.cap then h else with_limit h n (if ltb n h.len then n else h.len)

-- A row shown in a pane of so many columns: cut, or filled up with blanks.
unfoldable pub fit : ℕ → Row → Row
fit zero row = []
fit (suc n) [] = blank_cell ∷ fit n []
fit (suc n) (c ∷ row) = c ∷ fit n row

-- Row `r` of a view that ends above line `end` of history and live screen.
unfoldable pub view_row : History → List Row → ℕ → ℕ → ℕ → ℕ → Row
view_row h live cols view_rows end r =
    if ltb (end + r) view_rows
    then fit cols []
    else (let src = end + r - view_rows in
        if ltb src h.len
        then fit cols (history_row h src)
        else if ltb src (h.len + length live)
        then fit cols (get_or live (src - h.len) [])
        else fit cols [])

-- ScrollbackView: the rows that it shows, of a live screen of so many columns.
unfoldable pub scrollback_view : History → List Row → ℕ → ℤ → ℤ → List Row
unfolding view_row
scrollback_view h live cols offset rows =
    let view_rows = if pos_part rows == 0 then 1 else pos_part rows in
    let back = if ltb h.len (pos_part offset) then h.len else pos_part offset in
    tabulate view_rows (view_row h live cols view_rows (h.len + length live - back))
