-- ===== src/Server/Tabs.antt =====
-- visibleTabs of internal/server/session.go: the tabs of the status bar that are shown.
pub mod Choice
use ng_mux.Prelude.{
  ℕ, zero, suc, ◌+◌, ◌-◌, Bool, true, false, ◌&&◌, ◌||◌, List, if◌then◌else◌, leb, ltb, length,
  get_or,
}
use ng_mux.Prelude.Int.{ℤ, pos, negsuc}

-- The variables of the loop.
pub record TabRun : Type 0 where
  pub lo : ℕ
  pub hi : ℕ
  pub used : ℕ

-- Whether a width is at most the room, which may be negative.
abbrev pub fits_in : ℕ → ℤ → Bool
fits_in n (pos r) = leb n r
fits_in n (negsuc r) = false

module _ (widths : List ℕ) (room : ℤ) where
  -- widths[i], where the code has tested that i is in range.
  abbrev pub width : ℕ → ℕ
  width i = get_or widths i 0

  abbrev pub fits_right : TabRun → Bool
  fits_right t = ltb (t.hi + 1) (length widths) && fits_in (t.used + width (t.hi + 1)) room

  abbrev pub fits_left : TabRun → Bool
  fits_left t = ltb 0 t.lo && fits_in (t.used + width (t.lo - 1)) room

  unfoldable pub grow_right : TabRun → TabRun
  grow_right t =
      if fits_right t then record t { hi = t.hi + 1; used = t.used + width (t.hi + 1) } else t

  unfoldable pub grow_left : TabRun → TabRun
  grow_left t =
      if fits_left t then record t { lo = t.lo - 1; used = t.used + width (t.lo - 1) } else t

  -- The loop, on fuel: `grew` is whether one of the two tests held.
  unfoldable pub grow : ℕ → TabRun → TabRun
  grow zero t = t
  grow (suc fuel) t =
      let r = grow_right t in
      elim (fits_right t || fits_left r) [ true ↦ grow fuel (grow_left r) | false ↦ grow_left r ]

  unfoldable pub visible_tabs : ℕ → TabRun
  visible_tabs cur = grow (length widths) (record { lo = cur; hi = cur; used = width cur })
