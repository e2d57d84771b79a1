-- ===== src/Vterm/History/View.antt =====
-- What ScrollbackView of internal/vterm/vterm.go shows.
use ng_mux.Prelude.{
  ℕ, zero, suc, ◌+◌, ◌-◌, ◌≤◌, ◌<◌, ◌≡◌, refl, sym, ap, ◌∙◌, arith, true, List, [], ◌∷◌, ◌++◌,
  if◌then◌else◌, ltb, ◌==◌, inl, inr, Bool-cases, length, get_or, map, take, last, tabulate,
  tabulate-agree, tabulate-cast, length-append, replicate, get_or-tabulate, get_or-append,
  get_or-drop, get_or-take, get_or-replicate, tabulate-get_or, ltb→lt, min, max, length-take,
  length-replicate, length-drop,
}
use ng_mux.Prelude.Int.{ℤ, pos_part}
use ng_mux.Vterm.Cells.{Glyph, blank_cell, plain_blank, to_cell}
use ng_mux.Vterm.Cells.Blank.{plain_blank_iff}
use ng_mux.Vterm.History.{
  Row, History, text_length, stored_row, history_row, fit, view_row, scrollback_view,
}
use ng_mux.Vterm.History.Ring.{rows, length-rows, IsValid}

fit-append-blank : (n : ℕ) (row : Row) → fit n (row ++ blank_cell ∷ []) ≡ fit n row
unfolding fit
fit-append-blank zero row = refl
fit-append-blank (suc n) [] = refl
fit-append-blank (suc n) (c ∷ row) = ap (λ r. c ∷ r) (fit-append-blank n row)

take-suc :
    (n : ℕ) (gs : List Glyph) (d : Glyph)
    → n < length gs
    → map to_cell (take (suc n) gs) ≡ map to_cell (take n gs) ++ to_cell (get_or gs n d) ∷ []
take-suc n [] d h = elim h [ ]
take-suc zero (g ∷ gs) d h = refl
take-suc (suc n) (g ∷ gs) d h = ap (λ r. to_cell g ∷ r) (take-suc n gs d (omega arith))

take-all : (gs : List Glyph) → take (length gs) gs ≡ gs
take-all [] = refl
take-all (g ∷ gs) = ap (λ r. g ∷ r) (take-all gs)

fit-text :
    (cols n : ℕ) (gs : List Glyph)
    → n ≤ length gs
    → fit cols (map to_cell (take (text_length n gs) gs)) ≡ fit cols (map to_cell (take n gs))
unfolding text_length
fit-text cols zero gs h = refl
fit-text cols (suc n) gs h = elim (Bool-cases (plain_blank (get_or gs n outside))) [
  | inl e ↦ rw e (
      fit-text cols n gs (omega arith)
      ∙ sym (
          ap (fit cols) (
            take-suc n gs outside (omega arith)
            ∙ ap (λ c. map to_cell (take n gs) ++ c ∷ [])
                ((plain_blank_iff (get_or gs n outside)).0 e))
          ∙ fit-append-blank cols (map to_cell (take n gs))))
  | inr e ↦ rw e refl
]
  where
    outside : Glyph
    outside = record { char = 0; mode = 0; fg = 0; bg = 0 }

-- Dropping the trailing plain blanks of a line does not show: cut or filled up to any width, the
-- stored row is the row of all the line's cells.
pub fit-stored_row :
    (cols : ℕ) (gs : List Glyph) → fit cols (stored_row gs) ≡ fit cols (map to_cell gs)
unfolding stored_row
fit-stored_row cols gs =
    fit-text cols (length gs) gs (omega arith) ∙ ap (λ r. fit cols (map to_cell r)) (take-all gs)

-- Row `r` of the view, as an entry of the list that is shown.
module _ (h : History) (v : IsValid h) (live : List Row) where
  abbrev lines : List Row
  lines = rows h ++ live

  line_lem :
      (i : ℕ)
      → get_or lines i [] ≡ (if ltb i h.len then history_row h i else get_or live (i - h.len) [])
  line_lem i = elim (Bool-cases (ltb i h.len)) [
    | inl p ↦
        rw p (unfold rows in get_or-tabulate h.len (history_row h) live i [] (ltb→lt i h.len p))
    | inr p ↦ rw p (get_or-append (rows h) live i [] ∙ ground (arith, length-rows h v))
  ]

  length-lines : length lines ≡ h.len + length live
  length-lines = omega (arith, length-append (rows h) live, length-rows h v)

  abbrev shown : ℕ → ℕ → List Row
  shown n end = last n (replicate n [] ++ take end lines)

  length-all :
      (n end : ℕ) → end ≤ h.len + length live → length (replicate n [] ++ take end lines) ≡ n + end
  length-all n end p = omega (
    arith,
    length-append (replicate {A = Row} n []) (take end lines),
    length-replicate {A = Row} n [],
    length-take end lines,
    length-lines,
  )

  get_or-shown :
      (n end r : ℕ)
      → end ≤ h.len + length live
      → get_or (shown n end) r []
        ≡ (if ltb (end + r) n then [] else get_or (take end lines) (end + r - n) [])
  get_or-shown n end r p =
      let all = replicate n [] ++ take end lines in
      let place : length all - n + r ≡ end + r = omega (arith, length-all n end p) in
      get_or-drop (length all - n) all r []
      ∙ ap (λ k. get_or all k []) place
      ∙ get_or-append (replicate n []) (take end lines) (end + r) []
      ∙ rw (length-replicate {A = Row} n [], get_or-replicate {A = Row} n (end + r) [])

  view_row-shown :
      (cols n end r : ℕ)
      → end ≤ h.len + length live
      → r < n
      → view_row h live cols n end r ≡ fit cols (get_or (shown n end) r [])
  unfolding view_row
  view_row-shown cols n end r p q = elim (Bool-cases (ltb (end + r) n)) [
    | inl above ↦
        let blank : get_or (shown n end) r [] ≡ [] = get_or-shown n end r p ∙ rw above in
        rw above (ap (fit cols) (sym blank))
    | inr below ↦
        let src = end + r - n in
        let inside : src < end = ground arith in
        let line : get_or (shown n end) r []
            ≡ (if ltb src h.len then history_row h src else get_or live (src - h.len) []) =
          get_or-shown n end r p ∙ rw below (get_or-take end lines src [] inside ∙ line_lem src) in
        let in_lines : ltb src (h.len + length live) ≡ true = ground arith in
        rw (below, line, in_lines)
          (elim (Bool-cases (ltb src h.len)) [ inl e ↦ rw e | inr e ↦ rw e ])
  ]

  length-shown : (n end : ℕ) → end ≤ h.len + length live → length (shown n end) ≡ n
  length-shown n end p = omega (
    arith,
    length-all n end p,
    length-drop (length (replicate n [] ++ take end lines) - n) (replicate n [] ++ take end lines),
  )

  rows_shown :
      (cols n end : ℕ)
      → end ≤ h.len + length live
      → tabulate n (view_row h live cols n end) ≡ map (fit cols) (shown n end)
  rows_shown cols n end p =
      let row = λ (r : ℕ). fit cols (get_or (shown n end) r []) in
      tabulate-agree n (view_row h live cols n end) row (λ r q. view_row-shown cols n end r p q)
      ∙ tabulate-cast n (length (shown n end)) row (sym (length-shown n end p))
      ∙ tabulate-get_or (fit cols) (shown n end) []

  -- A view shows, cut or filled up to the width, the last rows of what stands above its end: of
  -- the history and then the live screen, without as many lines as it is scrolled back (as many
  -- as there are in the history, at most), with blank rows on top where there is too little. It
  -- has at least one row.
  pub scrollback_view_lem :
      (cols : ℕ) (offset height : ℤ)
      → scrollback_view h live cols offset height
        ≡ map (fit cols) (
            last (max 1 (pos_part height)) (
              replicate (max 1 (pos_part height)) []
              ++ take (length lines - min h.len (pos_part offset)) lines))
  unfolding scrollback_view
  scrollback_view_lem cols offset height =
      let tall : (if pos_part height == 0 then 1 else pos_part height) ≡ max 1 (pos_part height) =
        ground arith in
      let back : h.len
            + length live
            - (if ltb h.len (pos_part offset) then h.len else pos_part offset)
          ≡ length lines - min h.len (pos_part offset) =
        ground (arith, length-lines) in
      rw (tall, back)
        (rows_shown cols (max 1 (pos_part height)) (length lines - min h.len (pos_part offset))
          (omega (arith, length-lines)))
