-- ===== src/Server/CopyMode/Bounds.antt =====
-- The invariant of the copy-mode state of internal/server/copymode.go.
use ng_mux.Prelude.{ℕ, ◌<◌, ◌≤◌, arith, Bytes}
use ng_mux.Prelude.Int.{◌+ℤ◌}
use ng_mux.Server.CopyMode.{
  CopyState, Key, quit, key, apply_key, move_vertical, set_anchor, sync, new_copy_state,
}

-- `hist_len` is the length of the history that the view can scroll into.
pub record IsValid (c : CopyState) (hist_len : ℕ) : Type 0 where
  pub cx_inside : c.cx < c.cols
  pub cy_inside : c.cy < c.rows
  pub offset_inside : c.offset ≤ hist_len

pub new_copy_state-IsValid :
    (cols rows hist_len : ℕ) → 1 ≤ cols → 1 ≤ rows → IsValid (new_copy_state cols rows) hist_len
unfolding new_copy_state
new_copy_state-IsValid cols rows hist_len h k = ground arith

apply_key-IsValid :
    (k : Key) (c : CopyState) (hist_len : ℕ)
    → IsValid c hist_len
    → IsValid (apply_key k c hist_len).state hist_len
unfolding apply_key move_vertical set_anchor ◌+ℤ◌
apply_key-IsValid quit c hist_len v = ground arith
apply_key-IsValid _ c hist_len v = ground arith

-- Whatever chunk of bytes is typed in copy-mode, a cursor in the viewport stays there and an
-- offset within the history stays within it.
pub key-IsValid :
    (c : CopyState) (d : Bytes) (hist_len : ℕ)
    → IsValid c hist_len
    → IsValid (key c d hist_len).state hist_len
unfolding key
key-IsValid c d hist_len v = apply_key-IsValid _ c hist_len v

-- So does a sync, against whatever history there is by then, if the history did not shrink below
-- the offset.
pub sync-IsValid :
    (c : CopyState) (total hist_len : ℕ)
    → IsValid c hist_len
    → IsValid (sync c total hist_len) hist_len
unfolding sync
sync-IsValid c total hist_len v = ground arith
