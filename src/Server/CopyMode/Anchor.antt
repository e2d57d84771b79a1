-- ===== src/Server/CopyMode/Anchor.antt =====
-- Lemmas about the line numbers and sync of internal/server/copymode.go.
use ng_mux.Prelude.{◌⊎◌, inl, inr, Bool-cases, ltb, ℕ, ◌+◌, ◌-◌, ◌<◌, ◌≤◌, ◌≡◌, arith}
use ng_mux.Prelude.Int.{ℤ, ◌+ℤ◌, ◌-ℤ◌, int_laws}
use ng_mux.Server.CopyMode.{CopyState, line_at, row_of, sync}

-- lineAt and rowOf are inverse to one another.
pub row_of-line_at :
    (c : CopyState) (y : ℤ) → (row_of c (line_at c y) ≡ y) × (line_at c (row_of c y) ≡ y)
unfolding row_of line_at
row_of-line_at c y = (omega int_laws, omega int_laws)

-- A sync of copy-mode, with a count that has not gone back and an offset within the history,
-- leaves every viewport row on the line that it showed, or else the history has lost lines that
-- the view would have to show and the view shows the oldest that are left.
pub sync-line_at :
    (c : CopyState) (total hist_len : ℕ) (y : ℤ)
    → c.seen ≤ total
    → c.offset ≤ hist_len
    → (line_at (sync c total hist_len) y ≡ line_at c y)
      ⊎ ((hist_len < c.offset + (total - c.seen)) × ((sync c total hist_len).offset ≡ hist_len))
unfolding sync line_at ◌+ℤ◌ ◌-ℤ◌
sync-line_at c total hist_len y h k =
    elim (Bool-cases (ltb hist_len (c.offset + (total - c.seen)))) [
      | inl lost ↦ inr (ground arith, ground arith)
      | inr kept ↦ inl (ground arith)
    ]
