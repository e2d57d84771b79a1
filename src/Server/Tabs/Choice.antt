-- ===== src/Server/Tabs/Choice.antt =====
-- Lemmas about visibleTabs of internal/server/session.go.
use ng_mux.Prelude.{
  ℕ, zero, suc, ◌+◌, ◌-◌, ◌≤◌, ◌<◌, ◌≡◌, ◌⊎◌, inl, inr, refl, sym, ap, ◌∙◌, arith, true, false,
  ◌||◌, List, length, get_or, Bool-cases,
}
use ng_mux.Server.Tabs.{
  TabRun, width, fits_right, fits_left, grow_right, grow_left, grow, visible_tabs, fits_in,
}
use ng_mux.Prelude.Int.{ℤ}

-- The widths of `n` tabs from `i` on, added up.
abbrev pub sum_from : List ℕ → ℕ → ℕ → ℕ
sum_from widths i zero = 0
sum_from widths i (suc n) = get_or widths i 0 + sum_from widths (i + 1) n

sum_from-suc :
    (widths : List ℕ) (i n : ℕ)
    → sum_from widths i (suc n) ≡ sum_from widths i n + get_or widths (i + n) 0
sum_from-suc widths i zero =
    let same : i + 0 ≡ i = omega arith in omega (arith, ap (λ (k : ℕ). get_or widths k 0) same)
sum_from-suc widths i (suc n) =
    let same : i + 1 + n ≡ i + suc n = omega arith in
    omega (arith, sum_from-suc widths (i + 1) n, ap (λ (k : ℕ). get_or widths k 0) same)

-- The width of the tabs of a run.
abbrev pub run_width : List ℕ → TabRun → ℕ
run_width widths t = sum_from widths t.lo (t.hi + 1 - t.lo)

module _ (widths : List ℕ) (room : ℤ) (cur : ℕ) where
  record Run (t : TabRun) : Type 0 where
    left : t.lo ≤ cur
    right : cur ≤ t.hi
    inside : t.hi < length widths
    counted : t.used ≡ run_width widths t
    roomy : (fits_in t.used room ≡ true) ⊎ ((t.lo ≡ cur) × (t.hi ≡ cur))

  width_right :
      (lo hi : ℕ)
      → lo ≤ hi
      → sum_from widths lo (hi + 1 + 1 - lo)
        ≡ sum_from widths lo (hi + 1 - lo) + get_or widths (hi + 1) 0
  width_right lo hi h =
      let more : hi + 1 + 1 - lo ≡ suc (hi + 1 - lo) = omega arith in
      let next : lo + (hi + 1 - lo) ≡ hi + 1 = omega arith in
      ap (sum_from widths lo) more
      ∙ sum_from-suc widths lo (hi + 1 - lo)
      ∙ ap (λ (k : ℕ). sum_from widths lo (hi + 1 - lo) + get_or widths k 0) next

  width_left :
      (lo hi : ℕ)
      → 0 < lo
      → lo ≤ hi
      → sum_from widths (lo - 1) (hi + 1 - (lo - 1))
        ≡ get_or widths (lo - 1) 0 + sum_from widths lo (hi + 1 - lo)
  width_left lo hi p h =
      let more : hi + 1 - (lo - 1) ≡ suc (hi + 1 - lo) = omega arith in
      let back : lo - 1 + 1 ≡ lo = omega arith in
      ap (sum_from widths (lo - 1)) more
      ∙ ap (λ (k : ℕ). get_or widths (lo - 1) 0 + sum_from widths k (hi + 1 - lo)) back

  grow_right-Run : (t : TabRun) → Run t → Run (grow_right widths room t)
  unfolding grow_right
  grow_right-Run t v = elim (Bool-cases (fits_right widths room t)) [
    | inl more ↦
        rw (more, grow_right)
          (record {
            left = v.left;
            right = omega (arith, v.right);
            inside = ground arith;
            counted =
                let wide = width_right t.lo t.hi (omega (arith, v.left, v.right)) in
                omega (arith, v.counted, wide);
            roomy = inl (ground arith);
          })
    | inr done ↦ rw (done, grow_right) v
  ]

  grow_left-Run : (t : TabRun) → Run t → Run (grow_left widths room t)
  unfolding grow_left
  grow_left-Run t v = elim (Bool-cases (fits_left widths room t)) [
    | inl more ↦
        rw (more, grow_left)
          (record {
            left = omega (arith, v.left);
            right = v.right;
            inside = v.inside;
            counted =
                let wide = width_left t.lo t.hi (ground arith) (omega (arith, v.left, v.right)) in
                omega (arith, v.counted, wide);
            roomy = inl (ground arith);
          })
    | inr done ↦ rw (done, grow_left) v
  ]

  -- No tab next to the run fits in any more.
  abbrev pub Full : TabRun → Type 0
  Full t =
      ((t.hi + 1 ≡ length widths) ⊎ (fits_in (t.used + get_or widths (t.hi + 1) 0) room ≡ false))
      × ((t.lo ≡ 0) ⊎ (fits_in (t.used + get_or widths (t.lo - 1) 0) room ≡ false))

  full :
      (t : TabRun)
      → Run t
      → (fits_right widths room t || fits_left widths room (grow_right widths room t)) ≡ false
      → Full (grow_left widths room (grow_right widths room t))
  unfolding grow_right grow_left
  full t v done = ground (arith, v.inside)

  shrinks :
      (t : TabRun)
      → (fits_right widths room t || fits_left widths room (grow_right widths room t)) ≡ true
      → (grow_left widths room (grow_right widths room t)).lo + t.hi + 1
        ≤ t.lo + (grow_left widths room (grow_right widths room t)).hi
  unfolding grow_right grow_left
  shrinks t grew = ground arith

  grow-Full :
      (fuel : ℕ) (t : TabRun)
      → Run t
      → length widths + t.lo ≤ fuel + t.hi
      → Run (grow widths room fuel t) × Full (grow widths room fuel t)
  unfolding grow
  grow-Full zero t v h = absurd (omega (arith, v.inside))
  grow-Full (suc fuel) t v h =
      elim (Bool-cases
        (fits_right widths room t || fits_left widths room (grow_right widths room t))) [
          | inl grew ↦
              rw (grew, grow)
                (grow-Full fuel (grow_left widths room (grow_right widths room t))
                  (grow_left-Run _ (grow_right-Run t v)) (omega (arith, h, shrinks t grew)))
          | inr done ↦ rw (done, grow) (grow_left-Run _ (grow_right-Run t v), full t v done)
        ]

  start-Run :
      cur < length widths → Run (record { lo = cur; hi = cur; used = width widths room cur })
  start-Run h = record {
    left = omega arith;
    right = omega arith;
    inside = h;
    counted =
        let one : cur + 1 - cur ≡ suc 0 = omega arith in
        sym (ap (sum_from widths cur) one ∙ omega arith);
    roomy = inr (refl, refl);
  }

-- For a current tab that is there, visibleTabs chooses a run of tabs around it whose widths add
-- up to at most the room, which may be negative, unless it is the current tab alone, and no tab
-- beside the run would still fit; the fuel of the model is enough for the loop to end by its own
-- test.
pub visible_tabs_chosen :
    (widths : List ℕ) (room : ℤ) (cur : ℕ)
    → cur < length widths
    → let t = visible_tabs widths room cur in
      (t.lo ≤ cur)
      × (cur ≤ t.hi)
      × (t.hi < length widths)
      × ((fits_in (run_width widths t) room ≡ true) ⊎ ((t.lo ≡ cur) × (t.hi ≡ cur)))
      × ((t.hi + 1 ≡ length widths)
          ⊎ (fits_in (run_width widths t + get_or widths (t.hi + 1) 0) room ≡ false))
      × ((t.lo ≡ 0) ⊎ (fits_in (run_width widths t + get_or widths (t.lo - 1) 0) room ≡ false))
unfolding visible_tabs
visible_tabs_chosen widths room cur h =
    let (v, ends) =
      grow-Full widths room cur (length widths)
        (record { lo = cur; hi = cur; used = width widths room cur }) (start-Run widths room cur h)
        (omega arith) in
    let same = sym v.counted in
    (v.left, v.right, v.inside, rw same v.roomy, rw same ends.0, rw same ends.1)
