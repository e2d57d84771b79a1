-- ===== src/Layout/Arranging.antt =====
-- Lemmas about Arrange and its presets, of internal/layout/layout.go.
use mathlib.Core.List.{append_assoc, append-nil}
use Prim.Native.String.{String}
use ng_mux.Prelude.{
  ℕ, zero, suc, ◌+◌, ◌-◌, ◌*◌, ◌/◌, ◌≤◌, ◌<◌, ◌≡◌, ◌⊎◌, inl, inr, refl, List, [], ◌∷◌, ◌++◌, Option,
  none, some, arith, Bool-cases, sym, ap, subst, ◌∙◌, ltb, length, take, drop, take-append-drop,
  length-take, length-drop, if◌then◌else◌,
}
use ng_mux.Layout.{Float64, Axis, horizontal, vertical, PaneId, Node, leaf, split}
use ng_mux.Layout.Tree.{panes, all_panes}
use text.Mathlib.Text.{◌==◌ as str_eq}
use ng_mux.Layout.Arrange.{
  grid_cols, row_slice, even_chain, main_split, stack, grid_rows, tiled, arrange_many, arrange,
  other_axis, share,
}

drop-nil {ℓ} : {A : Type ℓ} (k : ℕ) → drop {A = A} k [] ≡ []
drop-nil zero = refl
drop-nil (suc k) = refl

drop-drop {ℓ} : {A : Type ℓ} (k s : ℕ) (xs : List A) → drop k (drop s xs) ≡ drop (s + k) xs
drop-drop k zero xs = ap (λ (i : ℕ). drop i xs) (omega arith)
drop-drop k (suc s) [] = drop-nil k ∙ sym (drop-nil (suc s + k))
drop-drop k (suc s) (x ∷ xs) =
    drop-drop k s xs
    ∙ (let same : suc (s + k) ≡ suc s + k = omega arith in ap (λ (i : ℕ). drop i (x ∷ xs)) same)

drop-eq-nil {ℓ} : {A : Type ℓ} (k : ℕ) (xs : List A) → length xs ≤ k → drop k xs ≡ []
drop-eq-nil zero [] h = refl
drop-eq-nil zero (x ∷ xs) h = absurd (omega arith)
drop-eq-nil (suc k) [] h = refl
drop-eq-nil (suc k) (x ∷ xs) h = drop-eq-nil k xs (omega arith)

-- A row, and what stands behind it.
row_slice-append :
    (ids : List PaneId) (start cols : ℕ)
    → start ≤ length ids
    → row_slice ids start cols ++ drop (start + cols) ids ≡ drop start ids
unfolding row_slice
row_slice-append ids start cols h = elim (Bool-cases (ltb (length ids) (start + cols))) [
  | inl past ↦
      let rest = drop-drop (length ids - start) start ids in
      let here : start + (length ids - start) ≡ length ids = omega arith in
      let gone = drop-eq-nil (start + cols) ids (ground arith) in
      let gone' = drop-eq-nil (length ids) ids (omega arith) in
      rw (past, row_slice)
        (ap (◌++◌ (take (length ids - start) (drop start ids)))
            (gone ∙ sym (rest ∙ ap (λ (i : ℕ). drop i ids) here ∙ gone'))
          ∙ take-append-drop (length ids - start) (drop start ids))
  | inr inside ↦
      let here : start + cols - start ≡ cols = omega arith in
      rw (inside, row_slice)
        (rw here (
          ap (◌++◌ (take cols (drop start ids))) (sym (drop-drop cols start ids))
          ∙ take-append-drop cols (drop start ids)))
]

length-row_slice :
    (ids : List PaneId) (start cols : ℕ)
    → start < length ids
    → 1 ≤ cols
    → 1 ≤ length (row_slice ids start cols)
unfolding row_slice
length-row_slice ids start cols h c = ground (
  arith,
  length-take ((if ltb (length ids) (start + cols) then length ids else start + cols) - start)
      (drop start ids),
  length-drop start ids,
)

grid_cols-ge : (fuel n cols : ℕ) → cols ≤ grid_cols fuel n cols
unfolding grid_cols
grid_cols-ge zero n cols = omega arith
grid_cols-ge (suc fuel) n cols = ground (arith, grid_cols-ge fuel n (cols + 1))

-- The fuel that `tiled` gives is enough: the grid has room for all panes.
pub grid_cols_enough :
    (fuel n cols : ℕ)
    → n ≤ cols + fuel
    → 1 ≤ cols
    → n ≤ grid_cols fuel n cols * grid_cols fuel n cols
unfolding grid_cols
grid_cols_enough zero n cols h c = grind arith
grid_cols_enough (suc fuel) n cols h c = ground (arith, grid_cols_enough fuel n (cols + 1))

rows_cover :
    (n cols : ℕ)
    → 1 ≤ cols
    → 1 ≤ n
    → (n ≤ (n + cols - 1) / cols * cols)
      × (((n + cols - 1) / cols - 1) * cols < n)
      × (1 ≤ (n + cols - 1) / cols)
rows_cover n cols c h = grind arith

-- The panes of the rows, one after the other.
abbrev panes_of_all : {F : Type 0} → List (Node F) → List PaneId
panes_of_all [] = []
panes_of_all (n ∷ ns) = panes n ++ panes_of_all ns

module _ (f : Float64) where
  open f use {F}

  even_chain-panes :
      (p : PaneId) (rest : List PaneId) (dir : Axis)
      → (n : Node F) × (even_chain f (p ∷ rest) dir ≡ some n) × (panes n ≡ p ∷ rest)
  unfolding even_chain panes
  even_chain-panes p [] dir = (leaf p, refl, refl)
  even_chain-panes p (q ∷ rest) dir =
      let (b, made, same) = even_chain-panes q rest dir in
      (split dir (share f (length (p ∷ q ∷ rest))) (leaf p) b, rw (made, even_chain), rw same)

  even_chain-length :
      (ids : List PaneId) (dir : Axis)
      → 1 ≤ length ids
      → (n : Node F) × (even_chain f ids dir ≡ some n) × (panes n ≡ ids)
  even_chain-length [] dir h = absurd (omega arith)
  even_chain-length (p ∷ rest) dir h = even_chain-panes p rest dir

  stack-panes :
      (n : Node F) (rest : List (Node F)) (dir : Axis)
      → (m : Node F) × (stack f (n ∷ rest) dir ≡ some m) × (panes m ≡ panes_of_all (n ∷ rest))
  unfolding stack panes
  stack-panes n [] dir = (n, refl, sym (append-nil (panes n)))
  stack-panes n (k ∷ rest) dir =
      let (b, made, same) = stack-panes k rest dir in
      (split dir (share f (length (n ∷ k ∷ rest))) n b, rw (made, stack), rw same)

  main_split-panes :
      (p q : PaneId) (rest : List PaneId) (dir : Axis)
      → (n : Node F) × (main_split f (p ∷ q ∷ rest) dir ≡ some n) × (panes n ≡ p ∷ q ∷ rest)
  unfolding main_split panes
  main_split-panes p q rest dir =
      let (b, made, same) = even_chain-panes q rest (other_axis dir) in
      (split dir (f.decimal 5 1) (leaf p) b, rw (made, main_split), rw same)

  next_row :
      (r left cols n : ℕ)
      → (suc left ≡ 0) ⊎ ((r + suc left - 1) * cols < n)
      → (left ≡ 0) ⊎ ((suc r + left - 1) * cols < n)
  next_row r left cols n (inl h) = absurd (omega arith)
  next_row r left cols n (inr h) =
      let same : r + suc left - 1 ≡ suc r + left - 1 = omega arith in
      inr (subst (λ k. k * cols < n) same h)

  -- Rows that all start within the list hold it from the first of them up to the end of the last.
  grid_rows-panes :
      (ids : List PaneId) (cols r left : ℕ)
      → 1 ≤ cols
      → (left ≡ 0) ⊎ ((r + left - 1) * cols < length ids)
      → (rows : List (Node F)) × (grid_rows f ids cols r left ≡ some rows)
        × (length rows ≡ left)
        × (panes_of_all rows ++ drop ((r + left) * cols) ids ≡ drop (r * cols) ids)
  unfolding grid_rows
  grid_rows-panes ids cols r zero c h =
      let same : (r + 0) * cols ≡ r * cols = grind arith in
      ([], refl, refl, ap (λ (i : ℕ). drop i ids) same)
  grid_rows-panes ids cols r (suc left) c h =
      let start : r * cols < length ids = grind arith in
      let (row, made, same) =
        even_chain-length (row_slice ids (r * cols) cols) horizontal
          (length-row_slice ids (r * cols) cols start c) in
      let (rows, made', count, rest) =
        grid_rows-panes ids cols (suc r) left c (next_row r left cols (length ids) h) in
      let last : (r + suc left) * cols ≡ (suc r + left) * cols = grind arith in
      let step : suc r * cols ≡ r * cols + cols = grind arith in
      (
        row ∷ rows,
        rw (made, grid_rows) (rw (made', grid_rows)),
        ap suc count,
        append_assoc (panes row) (panes_of_all rows) (drop ((r + suc left) * cols) ids)
            ∙ rw (same, last)
                (ap (◌++◌ (row_slice ids (r * cols) cols)) (rest ∙ ap (λ (i : ℕ). drop i ids) step)
                  ∙ row_slice-append ids (r * cols) cols (omega arith)),
      )

  stack_all :
      (nodes : List (Node F)) (dir : Axis)
      → 1 ≤ length nodes
      → (m : Node F) × (stack f nodes dir ≡ some m) × (panes m ≡ panes_of_all nodes)
  stack_all [] dir h = absurd (omega arith)
  stack_all (n ∷ rest) dir h = stack-panes n rest dir

  grid_panes :
      (ids : List PaneId) (cols rows : ℕ)
      → 1 ≤ cols
      → 1 ≤ rows
      → (rows - 1) * cols < length ids
      → length ids ≤ rows * cols
      → (nodes : List (Node F)) × (m : Node F) × (grid_rows f ids cols 0 rows ≡ some nodes)
        × (stack f nodes vertical ≡ some m)
        × (panes m ≡ ids)
  grid_panes ids cols rows wide some_row starts covers =
      let first : 0 + rows ≡ rows = omega arith in
      let (nodes, made, count, all) =
        grid_rows-panes ids cols 0 rows wide
          (inr (subst (λ k. (k - 1) * cols < length ids) (sym first) starts)) in
      let (m, stacked, same) = stack_all nodes vertical (omega arith) in
      let zero_row : 0 * cols ≡ 0 = omega arith in
      let gone =
        drop-eq-nil ((0 + rows) * cols) ids
          (subst (λ k. length ids ≤ k * cols) (sym first) covers) in
      (
        nodes,
        m,
        made,
        stacked,
        same
            ∙ sym (append-nil (panes_of_all nodes))
            ∙ ap (◌++◌ (panes_of_all nodes)) (sym gone)
            ∙ all
            ∙ ap (λ (i : ℕ). drop i ids) zero_row,
      )

  tiled-panes :
      (ids : List PaneId) → 1 ≤ length ids → (n : Node F) × (tiled f ids ≡ some n) × (panes n ≡ ids)
  unfolding tiled
  tiled-panes ids h =
      let n = length ids in
      let cols = grid_cols n n 1 in
      let wide : 1 ≤ cols = grid_cols-ge n n 1 in
      let (covers, starts, some_row) = rows_cover n cols wide h in
      let (nodes, m, made, stacked, same) =
        grid_panes ids cols ((n + cols - 1) / cols) wide some_row starts covers in
      (m, rw (made, tiled) stacked, same)

  arrange_many-panes :
      (p q : PaneId) (rest : List PaneId) (name : String)
      → (n : Node F) × (arrange_many f (p ∷ q ∷ rest) name ≡ some n) × (panes n ≡ p ∷ q ∷ rest)
  unfolding arrange_many
  arrange_many-panes p q rest name =
      let ids = p ∷ q ∷ rest in
      elim (Bool-cases (str_eq name "even-vertical")) [
        | inl a ↦ rw (a, arrange_many) (even_chain-panes p (q ∷ rest) vertical)
        | inr a ↦ elim (Bool-cases (str_eq name "tiled")) [
          | inl b ↦ rw (a, b, arrange_many) (tiled-panes ids (omega arith))
          | inr b ↦ elim (Bool-cases (str_eq name "main-vertical")) [
            | inl c ↦ rw (a, b, c, arrange_many) (main_split-panes p q rest horizontal)
            | inr c ↦ elim (Bool-cases (str_eq name "main-horizontal")) [
              | inl d ↦ rw (a, b, c, d, arrange_many) (main_split-panes p q rest vertical)
              | inr d ↦ rw (a, b, c, d, arrange_many) (even_chain-panes p (q ∷ rest) horizontal)
            ]
          ]
        ]
      ]

  -- Arrange never panics, whatever the name of the preset, and the tree that it builds holds
  -- exactly the given panes in the given order.
  pub arrange-panes :
      (ids : List PaneId) (name : String)
      → (tree : Option (Node F)) × (arrange f ids name ≡ some tree) × (all_panes tree ≡ ids)
  unfolding arrange all_panes
  arrange-panes [] name = (none, refl, refl)
  arrange-panes (p ∷ []) name = (some (leaf p), refl, unfold panes in refl)
  arrange-panes (p ∷ q ∷ rest) name =
      let (n, made, same) = arrange_many-panes p q rest name in (some n, rw (made, arrange), same)
