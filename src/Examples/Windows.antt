-- ===== src/Examples/Windows.antt =====
-- The theorems about windows and sessions of internal/server at concrete ones.
use ng_mux.Prelude.{
  Bool, ◌≡◌, ◌⊎◌, inr, refl, arith, true, false, List, [], none, some, contains, lookup,
}
use ng_mux.Prelude.Int.{ℤ, pos, negsuc}
use ng_mux.Layout.{horizontal, vertical, Node, leaf, split, ok, Result}
use ng_mux.Layout.Geometry.{compute, compute_onto, split_rect, split_axis, clamp_span}
use ng_mux.Layout.Tree.{panes, all_panes, find, replace_at}
use ng_mux.Layout.Edit.{split_pane, fits, find_in, replace_in}
use ng_mux.Server.Pane.{Pane, started_pane}
use ng_mux.Server.Window.{
  Window, outer_for, split as split_window_of, remove_pane, adopt_pane, focus,
}
use ng_mux.Server.Window.Valid.{IsValid}
use ng_mux.Server.Window.Changes.{split-IsValid, remove_pane-IsValid}
use ng_mux.Server.Window.Focus.{focus-IsValid}
use ng_mux.Server.Window.Faults.{split_start_failure}
use ng_mux.Server.Session.{Session, split_window, kill_window, no_windows}
use ng_mux.Server.Session.PaneMoves.{reap_one}
use ng_mux.Server.Session.Valid.{Member, spawn_window-IsValid, resize-IsValid}
use ng_mux.Server.Session.Splitting.{split_window-IsValid}
use ng_mux.Server.Session.Valid
use ng_mux.Server.Session.Reaping.{reap_one-IsValid, kill_window-IsValid}
use ng_mux.Server.Session.Valid.{new_session-IsValid}
use ng_mux.Server.Commands.{select_layout}
use ng_mux.Server.Commands.Handlers.{select_layout-IsValid}
use ng_mux.Examples.{thousandths, three_window, one_window, two_windows}

three_window-IsValid : IsValid three_window
unfolding all_panes panes
three_window-IsValid = record {
  distinct = (refl, (refl, (refl, tt)));
  keys_distinct = (refl, (refl, (refl, tt)));
  same_panes = λ j. refl;
  active_present = refl;
  nonzero = refl;
}

one_window-IsValid : IsValid one_window
unfolding all_panes panes
one_window-IsValid = record {
  distinct = (refl, tt);
  keys_distinct = (refl, tt);
  same_panes = λ j. refl;
  active_present = refl;
  nonzero = refl;
}

two_windows-IsValid : Valid.IsValid two_windows
unfolding all_panes panes
two_windows-IsValid = record {
  members = (
    record {
      valid = three_window-IsValid;
      panes_given = (omega arith, (omega arith, (omega arith, tt)));
      id_given = omega arith;
    },
    (
      record {
        valid = one_window-IsValid;
        panes_given = (omega arith, tt);
        id_given = omega arith;
      },
      tt,
    ),
  );
  cur_inside = inr (omega arith);
}

split-IsValid_example : IsValid (split_window_of thousandths three_window 4 vertical 80 24 true).0
split-IsValid_example =
    split-IsValid thousandths three_window 4 vertical 80 24 three_window-IsValid
      (unfold all_panes panes in refl) (omega arith)

remove_pane-IsValid_example :
    let r = remove_pane thousandths three_window 2 80 24 in
    ((r.1 ≡ true) × (r.0.panes ≡ []) × (r.0.tree ≡ none)) ⊎ ((r.1 ≡ false) × IsValid r.0)
remove_pane-IsValid_example =
    remove_pane-IsValid thousandths three_window 2 80 24 three_window-IsValid

abbrev window_of : Result (Window ℤ) → Window ℤ
window_of (ok w) = w
window_of _ = one_window

adopted :
    adopt_pane thousandths three_window (started_pane 5 80 24) horizontal 80 24
    ≡ ok (window_of (adopt_pane thousandths three_window (started_pane 5 80 24) horizontal 80 24))
unfolding adopt_pane outer_for split_pane find_in find fits compute compute_onto split_rect
    split_axis clamp_span
adopted = refl

focus-IsValid_example : (w' : Window ℤ) × (focus three_window (negsuc 0) ≡ some w') × IsValid w'
focus-IsValid_example = focus-IsValid three_window three_window-IsValid (negsuc 0) (inr refl)

-- The tree that a split of pane 1 makes.
abbrev split_tree : Node ℤ
split_tree =
    split horizontal (pos 500) (split vertical (pos 500) (leaf 1) (leaf 4))
      (split vertical (pos 500) (leaf 2) (leaf 3))

split_start_failure_example :
    let w' = (split_window_of thousandths three_window 4 vertical 80 24 false).0 in
    (contains 4 (all_panes w'.tree) ≡ true) × (lookup 4 w'.panes ≡ none) × (¬ IsValid w')
split_start_failure_example =
    split_start_failure thousandths three_window split_tree 4 vertical 80 24 three_window-IsValid
      (unfold all_panes panes in refl)
      (unfold outer_for split_pane find_in find replace_in replace_at fits compute compute_onto
          split_rect split_axis clamp_span in
        refl)

reap_one-IsValid_example :
    let (s', empty) = reap_one thousandths two_windows (some 1) 4 in
    Valid.IsValid s' × (s'.needs_repaint ≡ true) × (empty ≡ no_windows s'.windows)
reap_one-IsValid_example = reap_one-IsValid thousandths two_windows 1 4 two_windows-IsValid

split_window-IsValid_example : Valid.IsValid (split_window thousandths two_windows vertical true).0
split_window-IsValid_example =
    split_window-IsValid thousandths two_windows vertical two_windows-IsValid

kill_window-IsValid_example :
    (s' : Session ℤ) × (closed : List Pane) × (kill_window two_windows ≡ some (s', closed))
    × Valid.IsValid s'
kill_window-IsValid_example = kill_window-IsValid two_windows two_windows-IsValid

select_layout-IsValid_example :
    (w' : Window ℤ) × (roomy : Bool) × (select_layout thousandths three_window "main-vertical" 80 24
      ≡ some (w', roomy))
    × IsValid w'
    × (all_panes w'.tree ≡ all_panes three_window.tree)
select_layout-IsValid_example =
    select_layout-IsValid thousandths three_window "main-vertical" 80 24 three_window-IsValid
