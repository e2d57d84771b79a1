-- ===== src/Vterm/History/Ring.antt =====
-- The ring of rows of internal/vterm/vterm.go as the list of the newest rows.
use native.Mathlib.Nat.{mod-lt, mod-eq_of_lt}
use ng_mux.Prelude.{
  around, tabulate, last, tabulate-cast, length-tabulate, tabulate-agree, tabulate-suc,
  drop-tabulate, get_or-set_self, get_or-set_ne, get_or-tabulate, ℕ, suc, ◌+◌, ◌-◌, ◌%◌, ◌≤◌, ◌<◌,
  ◌≡◌, ◌≢◌, ◌⊎◌, inl, inr, refl, sym, ap, ◌∙◌, arith, false, List, [], ◌∷◌, ◌++◌, if◌then◌else◌,
  ltb, ◌==◌, length, get_or, set, replicate, drop, Bool-cases, length-append, length-replicate,
  length-set, ltb→lt, lt→ltb,
}
use ng_mux.Prelude.Int.{ℤ, pos_part}
use ng_mux.Vterm.History.{
  Row, History, slot_of, push_row, history_row, set_history_limit, with_limit,
}

-- What the scrollback is to its users: its rows, oldest first.
unfoldable pub rows : History → List Row
rows h = tabulate h.len (history_row h)

pub record IsValid (h : History) : Type 0 where
  pub sized : length h.buf ≡ h.cap
  pub within : h.len ≤ h.cap
  pub headed : (h.cap ≡ 0) ⊎ (h.head < h.cap)

-- Row `i` of a ring of rows.
abbrev at : List Row → ℕ → ℕ → Row
at buf head i = get_or buf ((head + i) % length buf) []

snoc {ℓ} : {A : Type ℓ} {xs ys : List A} {a b : A} → xs ≡ ys → a ≡ b → xs ++ a ∷ [] ≡ ys ++ b ∷ []
snoc p q = rw (p, q)

module _ (buf : List Row) (head : ℕ) (row : Row) (inside : head < length buf) where
  apart : (i n : ℕ) → i < n → n < length buf → (head + n) % length buf ≢ (head + i) % length buf
  apart i n p q e = ground (arith, around (head + n) (length buf), around (head + i) (length buf))

  at-set_ne :
      (slot from i : ℕ)
      → slot ≢ (from + i) % length buf
      → at (set buf slot row) from i ≡ at buf from i
  at-set_ne slot from i h =
      rw (length-set buf slot row) (get_or-set_ne buf slot ((from + i) % length buf) row [] h)

  at-set_self :
      (slot from i : ℕ)
      → slot < length buf
      → (from + i) % length buf ≡ slot
      → at (set buf slot row) from i ≡ row
  at-set_self slot from i h e =
      rw (length-set buf slot row) (rw e (get_or-set_self buf slot row [] h))

  place-lt : (n : ℕ) → (head + n) % length buf < length buf
  place-lt n = grind arith

  at-set_room :
      (n : ℕ)
      → n < length buf
      → tabulate (n + 1) (at (set buf ((head + n) % length buf) row) head)
        ≡ tabulate n (at buf head) ++ row ∷ []
  at-set_room n p =
      let slot = (head + n) % length buf in
      tabulate-cast (n + 1) (suc n) (at (set buf slot row) head) (omega arith)
      ∙ snoc
          (tabulate-agree n (at (set buf slot row) head) (at buf head)
            (λ i q. at-set_ne slot head i (apart i n q p)))
          (at-set_self slot head n (place-lt n) refl)

  next_place :
      (i : ℕ)
      → suc i < length buf
      → ((head + 1) % length buf + i) % length buf ≡ (head + suc i) % length buf
  next_place i p = ground (
    arith,
    around (head + 1) (length buf),
    around ((head + 1) % length buf + i) (length buf),
    around (head + suc i) (length buf),
  )

  last_place : (m : ℕ) → length buf ≡ suc m → ((head + 1) % length buf + m) % length buf ≡ head
  last_place m e =
      ground
        (arith, around (head + 1) (length buf), around ((head + 1) % length buf + m) (length buf))

  head_ne : (i : ℕ) → suc i < length buf → head ≢ (head + suc i) % length buf
  head_ne i p e = ground (arith, around (head + suc i) (length buf))

  at-set_full :
      (m : ℕ)
      → length buf ≡ suc m
      → tabulate (suc m) (at (set buf head row) ((head + 1) % length buf))
        ≡ drop 1 (tabulate (suc m) (at buf head)) ++ row ∷ []
  at-set_full m e =
      let from = (head + 1) % length buf in
      snoc
        (tabulate-agree m (at (set buf head row) from) (λ i. at buf head (suc i))
          (λ i q.
            at-set_ne head from i (λ h. head_ne i (omega arith) (h ∙ next_place i (omega arith)))
            ∙ ap (λ k. get_or buf k []) (next_place i (omega arith))))
        (at-set_self head from m inside (last_place m e))
      ∙ ap (λ (t : List Row). drop 1 t ++ row ∷ []) (sym (tabulate-suc m (at buf head)))

module _ (h : History) (v : IsValid h) where
  -- A valid history stays valid when a row is pushed.
  pub push_row-IsValid : (row : Row) → IsValid (push_row h row)
  unfolding push_row slot_of
  push_row-IsValid row = ground (
    arith,
    v.headed,
    length-set h.buf ((h.head + h.len) % length h.buf) row,
    length-set h.buf h.head row,
    mod-lt (h.head + 1) {m = h.cap},
  )

  rows-push_row_empty :
      (row : Row) → h.cap ≡ 0 → rows (push_row h row) ≡ last h.cap (rows h ++ row ∷ [])
  unfolding rows push_row
  rows-push_row_empty row e =
      let none_left : tabulate h.len (history_row h) ≡ [] =
        tabulate-cast h.len 0 (history_row h) (omega (arith, v.within)) in
      ground (arith, none_left)

  rows-push_row_room : (row : Row) → h.len < h.cap → rows (push_row h row) ≡ rows h ++ row ∷ []
  unfolding rows push_row slot_of history_row
  rows-push_row_room row p =
      let q : h.len < length h.buf = rw v.sized p in
      let some_cap : (h.cap == 0) ≡ false = ground arith in
      rw (some_cap, lt→ltb h.len (length h.buf) q)
        (at-set_room h.buf h.head row (ground (arith, v.headed)) h.len q)

  rows-push_row_full :
      (row : Row) (m : ℕ)
      → h.len ≡ suc m
      → h.cap ≡ suc m
      → rows (push_row h row) ≡ drop 1 (rows h) ++ row ∷ []
  unfolding rows push_row slot_of history_row
  rows-push_row_full row m e f =
      let some_cap : (h.cap == 0) ≡ false = ground arith in
      let full : ltb h.len (length h.buf) ≡ false = ground arith in
      rw (some_cap, full, e)
        (at-set_full h.buf h.head row (ground (arith, v.headed)) m (v.sized ∙ f))

  pub length-rows : length (rows h) ≡ h.len
  unfolding rows
  length-rows = length-tabulate h.len (history_row h)

  length-pushed : (row : Row) → length (rows h ++ row ∷ []) ≡ suc h.len
  unfolding rows
  length-pushed row = omega (
    arith,
    length-append (tabulate h.len (history_row h)) (row ∷ []),
    length-tabulate h.len (history_row h),
  )

  drop_one :
      (xs : List Row) (row : Row) → 0 < length xs → drop 1 (xs ++ row ∷ []) ≡ drop 1 xs ++ row ∷ []
  drop_one [] row p = elim p [ ]
  drop_one (x ∷ xs) row p = refl

  -- Pushing a row keeps the newest rows, as many as the limit allows, in order.
  pub rows-push_row : (row : Row) → rows (push_row h row) ≡ last h.cap (rows h ++ row ∷ [])
  rows-push_row row = elim (Bool-cases (h.cap == 0)) [
    | inl e ↦ rows-push_row_empty row (ground arith)
    | inr e ↦ elim (Bool-cases (ltb h.len h.cap)) [
      | inl p ↦
          let none_over : length (rows h ++ row ∷ []) - h.cap ≡ 0 =
            ground (arith, length-pushed row) in
          rw none_over (rows-push_row_room row (ltb→lt h.len h.cap p))
      | inr p ↦
          let one_over : length (rows h ++ row ∷ []) - h.cap ≡ 1 =
            ground (arith, length-pushed row, v.within) in
          rw one_over (
            rows-push_row_full row (h.len - 1) (ground (arith, v.within)) (ground (arith, v.within))
            ∙ sym (drop_one (rows h) row (ground (arith, length-rows, v.within))))
    ]
  ]

  length-with_limit : (n keep : ℕ) → keep ≤ n → length (with_limit h n keep).buf ≡ n
  unfolding with_limit
  length-with_limit n keep p =
      let kept = λ (i : ℕ). history_row h (h.len - keep + i) in
      omega (
        arith,
        length-append (tabulate keep kept) (replicate (n - keep) []),
        length-tabulate keep kept,
        length-replicate {A = Row} (n - keep) [],
      )

  with_limit-IsValid : (n keep : ℕ) → keep ≤ n → IsValid (with_limit h n keep)
  with_limit-IsValid n keep p = record {
    sized = length-with_limit n keep p ∙ unfold with_limit in refl;
    within = unfold with_limit in p;
    headed = unfold with_limit in ground arith;
  }

  place-with_limit :
      (n keep i : ℕ) → keep ≤ n → i < keep → (0 + i) % length (with_limit h n keep).buf ≡ i
  place-with_limit n keep i p q =
      rw (length-with_limit n keep p)
        (omega (arith, mod-eq_of_lt {n = 0 + i} {m = n} (omega arith)))

  row-with_limit :
      (n keep i : ℕ)
      → keep ≤ n
      → i < keep
      → history_row (with_limit h n keep) i ≡ history_row h (h.len - keep + i)
  unfolding history_row with_limit
  row-with_limit n keep i p q =
      ap (λ k. get_or (with_limit h n keep).buf k []) (place-with_limit n keep i p q)
      ∙ get_or-tabulate keep (λ (j : ℕ). history_row h (h.len - keep + j)) (replicate (n - keep) [])
          i [] q

  rows-with_limit :
      (n keep : ℕ) → keep ≤ n → keep ≤ h.len → rows (with_limit h n keep) ≡ last keep (rows h)
  rows-with_limit n keep p q =
      let kept = λ (i : ℕ). history_row h (h.len - keep + i) in
      let same : tabulate keep (history_row (with_limit h n keep)) ≡ tabulate keep kept =
        tabulate-agree keep (history_row (with_limit h n keep)) kept
          (λ i r. row-with_limit n keep i p r) in
      let dropped : drop (h.len - keep) (tabulate h.len (history_row h)) ≡ tabulate keep kept =
        (ap (drop (h.len - keep))
            (tabulate-cast h.len (h.len - keep + keep) (history_row h) (omega arith))
          ∙ drop-tabulate (h.len - keep) keep (history_row h)) in
      rw length-rows (unfold rows with_limit in (same ∙ sym dropped))

  -- A valid history stays valid when the limit is set, to any integer.
  pub set_history_limit-IsValid : (limit : ℤ) → IsValid (set_history_limit h limit)
  unfolding set_history_limit
  set_history_limit-IsValid limit = elim (Bool-cases (pos_part limit == h.cap)) [
    | inl e ↦ rw e v
    | inr e ↦ rw e (with_limit-IsValid (pos_part limit) _ (ground arith))
  ]

  -- Setting the limit keeps the newest rows, as many as the new limit allows, in order.
  pub rows-set_history_limit :
      (limit : ℤ) → rows (set_history_limit h limit) ≡ last (pos_part limit) (rows h)
  unfolding set_history_limit
  rows-set_history_limit limit = elim (Bool-cases (pos_part limit == h.cap)) [
    | inl e ↦
        let none_over : length (rows h) - pos_part limit ≡ 0 =
          ground (arith, length-rows, v.within) in
        rw (e, none_over)
    | inr e ↦
        let fewer : length (rows h) - (if ltb (pos_part limit) h.len then pos_part limit else h.len)
            ≡ length (rows h) - pos_part limit =
          ground (arith, length-rows) in
        rw e (
          rows-with_limit (pos_part limit)
            (if ltb (pos_part limit) h.len then pos_part limit else h.len) (ground arith)
            (ground arith)
          ∙ ap (λ k. drop k (rows h)) fewer)
  ]
