-- ===== src/Examples/Attached.antt =====
-- The theorems about the daemon, its clients and their mouse, of internal/server, at concrete
-- inputs.
use ng_mux.Prelude.{
  ℕ, ◌+◌, ◌≡◌, ◌≢◌, ◌||◌, inl, inr, refl, arith, true, false, List, [], ◌∷◌, none, some, Bytes,
  codes, leb, find, is_some,
}
use ng_mux.Prelude.Int.{ℤ, pos, negsuc}
use ng_mux.Server.InputQueue.{initial, start, next}
use ng_mux.Server.Client.{Render, Client, new_client, set_size}
use ng_mux.Server.Client.Writing
use ng_mux.Server.Client.Writing.{offer}
use ng_mux.Server.Client.Writing.Frames.{InStep, Reach-InStep}
use ng_mux.Server.Session.{Session, current, content_rows}
use ng_mux.Server.Daemon.{Daemon, publish, fit_sessions, next_session_name}
use ng_mux.Server.Daemon.Registry
use ng_mux.Server.Daemon.Registry.{IsRegistered, Reach-IsRegistered}
use ng_mux.Server.Daemon.NextName.{next_session_name_lem}
use ng_mux.Server.Daemon.Fitting.{widths, heights, fitted, fit_sessions-size}
use ng_mux.Server.MouseEncode.{release, drag}
use ng_mux.Server.Mouse.{MouseState}
use ng_mux.Server.Mouse.Routing.{route_mouse}
use ng_mux.Server.Mouse.Routing.Gestures.{
  IsOneGesture, Ended, route_mouse-IsOneGesture, route_mouse-release,
}
use ng_mux.Server.Pane.{Pane}
use ng_mux.Examples.{thousandths, two_windows, three_window}

-- Frames that are numbers, painted as one byte unless nothing changed.
abbrev numbers : Render
numbers = record {
  Frame = ℕ;
  blank = 0;
  paint = λ base frame. frame ∷ [];
  stamp_passthrough = λ frame. frame + 100;
}

Reach-InStep_example : InStep numbers (offer numbers (Writing.initial numbers (codes "0")) 7)
Reach-InStep_example =
    Reach-InStep numbers
      (Writing.next Writing.start (Writing.offers (Writing.initial numbers (codes "0")) 7))

abbrev no_sessions : Daemon ℤ ℕ
no_sessions = record {
  sessions = [];
  order = [];
  clients = [];
  stopped = false;
  init_cols = pos 80;
  init_rows = pos 24;
  pane_titles = false;
  default_name = codes "sh";
}

no_sessions-IsRegistered : IsRegistered no_sessions
no_sessions-IsRegistered = record {
  distinct = tt;
  listed = λ n. refl;
  named = λ n s h. absurd (ground arith);
  unnamed = refl;
}

main_ne_nil : codes "main" ≢ []
main_ne_nil h = absurd (ground arith)

Reach-IsRegistered_example : IsRegistered (publish no_sessions (codes "main") two_windows).0
Reach-IsRegistered_example = Reach-IsRegistered thousandths no_sessions-IsRegistered (
    Registry.next Registry.start
      (Registry.publishes no_sessions (codes "main") two_windows refl main_ne_nil))

-- One byte for each number.
one_byte_distinct : (i j : ℕ) → ◌≡◌ {A = Bytes} (i ∷ []) (j ∷ []) → i ≡ j
one_byte_distinct i j h = ground arith

next_session_name_lem_example :
    (i : ℕ) × (next_session_name (λ k. k ∷ []) no_sessions ≡ some (i ∷ []))
    × (find (i ∷ []) no_sessions.sessions ≡ none)
    × ((j : ℕ) → (leb i j || is_some (find (j ∷ []) no_sessions.sessions)) ≡ true)
next_session_name_lem_example = next_session_name_lem (λ k. k ∷ []) one_byte_distinct no_sessions

abbrev viewing : Bytes → ℤ → ℤ → Client ℕ
viewing name cols rows = set_size (new_client 0 name) cols rows

-- Two viewers of one size each, and one whose size is not known.
abbrev viewed : Daemon ℤ ℕ
viewed = record no_sessions {
  sessions = (codes "main", two_windows) ∷ [];
  order = codes "main" ∷ [];
  clients =
      (1, viewing (codes "main") (pos 100) (pos 20))
      ∷ (2, viewing (codes "main") (pos 90) (pos 50))
      ∷ (3, viewing (codes "main") (pos 0) (pos 0))
      ∷ [];
}

fit_sessions-size_example :
    (t : Session ℤ) × (find (codes "main") (fit_sessions thousandths viewed).sessions ≡ some t)
    × (t.cols ≡ fitted 80 (widths (codes "main") viewed.clients))
    × (t.rows ≡ fitted 25 (heights (codes "main") viewed.clients))
fit_sessions-size_example = fit_sessions-size thousandths (codes "main") viewed two_windows refl

abbrev three_names : List Bytes
three_names = codes "a" ∷ codes "b" ∷ codes "c" ∷ []

-- A selection in progress in pane 2.
abbrev selecting : MouseState
selecting = record {
  drag = none;
  fwd = 0;
  sel = 2;
  sel_x = pos 3;
  sel_y = pos 4;
  sel_active = false;
  copied = [];
}

selecting-IsOneGesture : IsOneGesture selecting
selecting-IsOneGesture = record { sel_or_fwd = inr refl; drag_alone = inl refl }

abbrev no_text : Pane → Bytes
no_text p = []

route_mouse-IsOneGesture_example :
    IsOneGesture
      (route_mouse thousandths no_text selecting two_windows [] drag
        (pos 70)
        (pos 5)
        (pos 0)
        true).mouse
route_mouse-IsOneGesture_example =
    route_mouse-IsOneGesture thousandths no_text selecting two_windows [] drag (pos 70) (pos 5)
      (pos 0) true selecting-IsOneGesture

route_mouse-release_example :
    Ended
      (route_mouse thousandths no_text selecting two_windows [] release
        (negsuc 4)
        (pos 99)
        (pos 0)
        true).mouse
route_mouse-release_example =
    route_mouse-release thousandths no_text selecting two_windows [] (negsuc 4) (pos 99) (pos 0)
      true three_window selecting-IsOneGesture (unfold current in refl)
      (unfold current in omega arith) (unfold current content_rows in omega arith)
