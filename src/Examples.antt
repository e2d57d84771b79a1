-- ===== src/Examples.antt =====
-- Small concrete trees, windows and sessions, on which the theorems about internal/ are tried.
pub mod Layouts
pub mod Windows
pub mod Daemon
pub mod Terminal
pub mod Attached
pub mod Configured
use ng_mux.Prelude.{
  ℕ, suc, ◌+◌, ◌*◌, ◌/◌, ◌^◌, Bool, true, false, List, [], ◌∷◌, Option, none, some, ltb, Bytes,
  codes, if◌then◌else◌, leb, ◌==◌,
}
use ng_mux.Prelude.Int.{ℤ, pos, negsuc, pos_part, neg_part, sub_ℕ, ltb_ℤ}
use ng_mux.Layout.{Float64, horizontal, vertical, Rect, Node, leaf, split}
use ng_mux.Server.Pane.{Pane, started_pane}
use ng_mux.Server.Window.{Window}
use ng_mux.Server.Session.{Session}

abbrev scale_down : ℤ → ℤ
scale_down (pos n) = pos (n / 1000)
scale_down (negsuc n) = sub_ℕ 0 (suc n / 1000)

abbrev scale_up : ℤ → ℤ
scale_up a = sub_ℕ (pos_part a * 1000) (neg_part a * 1000)

abbrev product : ℤ → ℤ → ℤ
product (pos a) (pos b) = pos (a * b)
product (pos a) (negsuc b) = sub_ℕ 0 (a * suc b)
product (negsuc a) (pos b) = sub_ℕ 0 (suc a * b)
product (negsuc a) (negsuc b) = pos (suc a * suc b)

abbrev quotient : ℤ → ℤ → ℤ
quotient (pos a) (pos b) = pos (a / b)
quotient (pos a) (negsuc b) = sub_ℕ 0 (a / suc b)
quotient (negsuc a) (pos b) = sub_ℕ 0 (suc a / b)
quotient (negsuc a) (negsuc b) = pos (suc a / suc b)

-- Numbers with three decimals, cut towards 0.
abbrev pub thousandths : Float64
thousandths = record {
  F = ℤ;
  of_int = scale_up;
  to_int = scale_down;
  decimal = λ m k. pos (m * 1000 / 10 ^ k);
  add = λ a b. sub_ℕ (pos_part a + pos_part b) (neg_part a + neg_part b);
  sub = λ a b. sub_ℕ (pos_part a + neg_part b) (neg_part a + pos_part b);
  mul = λ a b. scale_down (product a b);
  div = λ a b. quotient (scale_up a) b;
  neg = λ a. sub_ℕ (neg_part a) (pos_part a);
  lt = ltb_ℤ;
}

abbrev pub area : Rect
area = record { x = 0; y = 0; w = 80; h = 24 }

-- Pane 1 on the left, 2 above 3 on the right.
abbrev pub three : Node ℤ
three = split horizontal (pos 500) (leaf 1) (split vertical (pos 500) (leaf 2) (leaf 3))

abbrev pub three_window : Window ℤ
three_window = record {
  id = 0;
  name = codes "sh";
  tree = some three;
  panes = (1, started_pane 1 40 24) ∷ (2, started_pane 2 39 11) ∷ (3, started_pane 3 39 12) ∷ [];
  active = 1;
  zoom = 0;
  activity_shown = false;
  titles = false;
}

abbrev pub one_window : Window ℤ
one_window = record {
  id = 1;
  name = codes "sh";
  tree = some (leaf 4);
  panes = (4, started_pane 4 80 24) ∷ [];
  active = 4;
  zoom = 0;
  activity_shown = false;
  titles = false;
}

abbrev pub two_windows : Session ℤ
two_windows = record {
  name = codes "main";
  windows = three_window ∷ one_window ∷ [];
  cur = 0;
  next_pane_id = 4;
  next_window_id = 2;
  cols = 80;
  rows = 25;
  paste_buf = [];
  needs_repaint = false;
  pane_titles = false;
  default_name = codes "sh";
}
