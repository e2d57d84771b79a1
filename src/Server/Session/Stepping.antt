-- ===== src/Server/Session/Stepping.antt =====
-- Lemmas about next-window and previous-window, stepWindow of internal/server/session.go.
use native.Mathlib.Nat.{mod-eq_of_lt}
use ng_mux.Prelude.{ℕ, zero, suc, ◌+◌, ◌-◌, ◌%◌, ◌≤◌, ◌<◌, ◌≡◌, ◌∙◌, arith, length}
use ng_mux.Prelude.Int.{ℤ, pos, negsuc, ◌+ℤ◌, go_rem, pos_part}
use ng_mux.Server.Session.{Session, step_window}
use ng_mux.Layout.Cycling.{index_after, index_before, mod_after, mod_before}

one_mod : (n : ℕ) → 2 ≤ n → 1 % n ≡ 1
one_mod n h = mod-eq_of_lt (omega arith)

up_index : (i n : ℕ) → i < n → (i + 1 % n + n) % n ≡ index_after i n
up_index i zero h = absurd (omega arith)
up_index i (suc zero) h = ground arith
up_index i (suc (suc k)) h = rw (one_mod (suc (suc k)) (omega arith)) (mod_after i (suc (suc k)) h)

down_index : (i n : ℕ) → i < n → (i + n - 1 % n) % n ≡ index_before i n
down_index i zero h = absurd (omega arith)
down_index i (suc zero) h = ground arith
down_index i (suc (suc k)) h =
    rw (one_mod (suc (suc k)) (omega arith)) (mod_before i (suc (suc k)) h)

step_up :
    (i n : ℕ) → i < n → pos_part (go_rem (pos i +ℤ go_rem (pos 1) n +ℤ pos n) n) ≡ index_after i n
unfolding go_rem ◌+ℤ◌
step_up i n h = ground (arith, up_index i n h)

rem_small : (n : ℕ) → 1 ≤ n → 1 % n ≤ 1
rem_small (suc zero) h = ground arith
rem_small (suc (suc k)) h = omega (arith, one_mod (suc (suc k)) (omega arith))
rem_small zero h = absurd (omega arith)

step_down :
    (i n : ℕ)
    → i < n
    → pos_part (go_rem (pos i +ℤ go_rem (negsuc 0) n +ℤ pos n) n) ≡ index_before i n
unfolding go_rem ◌+ℤ◌
step_down i n h = ground (arith, down_index i n h, rem_small n)

module _ {F : Type 0} where
  step_window-cur :
      (s : Session F) (delta : ℤ) (i : ℕ)
      → 0 < length s.windows
      → pos_part (
          go_rem
            (pos s.cur +ℤ go_rem delta (length s.windows) +ℤ pos (length s.windows))
            (length s.windows))
        ≡ i
      → step_window s delta ≡ record s { cur = i }
  unfolding step_window
  step_window-cur s delta i h e = ground arith

  -- With the current index in range, next-window and prev-window stay in range, wrap round at
  -- the ends of the list, and undo one another.
  step_window_inverse :
      (s : Session F)
      → s.cur < length s.windows
      → (step_window s (pos 1) ≡ record s { cur = index_after s.cur (length s.windows) })
        × (step_window s (negsuc 0) ≡ record s { cur = index_before s.cur (length s.windows) })
        × (step_window (step_window s (pos 1)) (negsuc 0) ≡ s)
        × (step_window (step_window s (negsuc 0)) (pos 1) ≡ s)
  step_window_inverse s h =
      let n = length s.windows in
      let next =
        step_window-cur s (pos 1) (index_after s.cur n) (omega arith) (step_up s.cur n h) in
      let prev =
        step_window-cur s (negsuc 0) (index_before s.cur n) (omega arith) (step_down s.cur n h) in
      let after : index_after s.cur n < n = ground arith in
      let before : index_before s.cur n < n = ground arith in
      let back : index_before (index_after s.cur n) n ≡ s.cur = ground arith in
      let forth : index_after (index_before s.cur n) n ≡ s.cur = ground arith in
      (
        next,
        prev,
        rw next (
            step_window-cur (record s { cur = index_after s.cur n }) (negsuc 0) s.cur (omega arith)
              (step_down (index_after s.cur n) n after ∙ back)),
        rw prev (
            step_window-cur (record s { cur = index_before s.cur n }) (pos 1) s.cur (omega arith)
              (step_up (index_before s.cur n) n before ∙ forth)),
      )
