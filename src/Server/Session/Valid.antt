-- ===== src/Server/Session/Valid.antt =====
-- The invariant of a session of internal/server/session.go, and new windows, removed windows and
-- resizes.
use ng_mux.Prelude.{
  some, All-set, All-mono, All-map, empty_or_not, ℕ, zero, suc, ◌+◌, ◌≤◌, ◌<◌, ◌≡◌, ◌⊎◌, inl, inr,
  refl, ap, arith, Bool, true, false, ◌&&◌, ◌||◌, List, [], ◌∷◌, ltb, ◌==◌, length, Bool-cases,
  Bytes, All, All-append, get_elem?, set, length-append, length-set, length-map,
}
use ng_mux.Layout.{Float64}
use ng_mux.Layout.Tree.{all_panes, panes}
use ng_mux.Server.Pane.{Pane, started_pane}
use ng_mux.Server.Window.{Window, wrap_window, apply_layout}
use ng_mux.Server.Window.Valid.{
  apply_layout-IsValid, apply_layout-SameShape, apply_layout-id, wrap_window-IsValid,
}
use ng_mux.Server.Window.Valid
use ng_mux.Prelude.Int.{ℤ}
use ng_mux.Server.Session.{
  content_rows, new_session, empty_session, size_or, next_win, Session, no_windows, without_at,
  append_window, current, next_pane, spawn_window, remove_window_at, resize,
}

-- A window of a session: valid, and with ids that the session has given out.
pub record Member {F : Type 0} (last_pane next_window : ℕ) (w : Window F) : Type 0 where
  pub valid : Valid.IsValid w
  pub panes_given : All (λ j. j ≤ last_pane) (all_panes w.tree)
  pub id_given : w.id < next_window

-- The index of the current window is in range, unless there is none.
pub record IsValid {F : Type 0} (s : Session F) : Type 0 where
  pub members : All (Member s.next_pane_id s.next_window_id) s.windows
  pub cur_inside : (s.windows ≡ []) ⊎ (s.cur < length s.windows)

All-without_at {ℓ κ} :
    {A : Type ℓ} (P : A → Type κ) (xs : List A) (i : ℕ) → All P xs → All P (without_at xs i)
All-without_at P [] i h = tt
All-without_at P (x ∷ xs) zero h = h.1
All-without_at P (x ∷ xs) (suc i) h = (h.0, All-without_at P xs i h.1)

module _ {F : Type 0} where
  pub Member-later :
      (lp nw lp' nw' : ℕ) (w : Window F) → lp ≤ lp' → nw ≤ nw' → Member lp nw w → Member lp' nw' w
  Member-later lp nw lp' nw' w h k m = record {
    valid = m.valid;
    panes_given =
        All-mono (λ j. j ≤ lp) (λ j. j ≤ lp') (λ j g. omega arith) (all_panes w.tree) m.panes_given;
    id_given = omega (arith, m.id_given);
  }

  -- A window put at the end and made current, with the counters moved on.
  appended-IsValid :
      (s s' : Session F) (w : Window F)
      → IsValid s
      → s'.windows ≡ s.windows
      → s.next_pane_id ≤ s'.next_pane_id
      → s.next_window_id ≤ s'.next_window_id
      → Member s'.next_pane_id s'.next_window_id w
      → IsValid (append_window s' w)
  appended-IsValid s s' w v same h k m = record {
    members =
        All-append (Member s'.next_pane_id s'.next_window_id) s'.windows (w ∷ [])
          (rw same (
            All-mono (Member s.next_pane_id s.next_window_id)
              (Member s'.next_pane_id s'.next_window_id)
              (λ x mx.
                Member-later s.next_pane_id s.next_window_id s'.next_pane_id s'.next_window_id x h k
                  mx)
              s.windows v.members))
          (m, tt);
    cur_inside = inr (omega (arith, length-append s'.windows (w ∷ [])));
  }

  first_pane-Member :
      (lp nw : ℕ) (name : Bytes) (p : Pane) (titles : Bool)
      → p.id ≡ lp + 1
      → Member (lp + 1) (nw + 1) (record (wrap_window {F = F} nw name p) { titles = titles })
  first_pane-Member lp nw name p titles e =
      let v = wrap_window-IsValid {F = F} nw name p (omega (arith, e)) in
      record {
        valid = record {
          distinct = v.distinct;
          keys_distinct = v.keys_distinct;
          same_panes = v.same_panes;
          active_present = v.active_present;
          nonzero = v.nonzero;
        };
        panes_given = unfold wrap_window all_panes panes in (omega (arith, e), tt);
        id_given = unfold wrap_window in omega arith;
      }

  -- A new window, whether its pane starts or not, leaves a valid session valid.
  pub spawn_window-IsValid :
      (s : Session F) (cols rows : ℕ) (starts : Bool)
      → IsValid s
      → IsValid (spawn_window s cols rows starts).0
  unfolding spawn_window next_pane
  spawn_window-IsValid s cols rows false v = record {
    members =
        All-mono (Member s.next_pane_id s.next_window_id)
          (Member (s.next_pane_id + 1) (s.next_window_id + 1))
          (λ x mx.
            Member-later s.next_pane_id s.next_window_id (s.next_pane_id + 1) (s.next_window_id + 1)
              x (omega arith) (omega arith) mx)
          s.windows v.members;
    cur_inside = v.cur_inside;
  }
  spawn_window-IsValid s cols rows true v =
      appended-IsValid s
        (record s { next_pane_id = s.next_pane_id + 1; next_window_id = s.next_window_id + 1 }) _ v
        refl (omega arith) (omega arith)
        (first_pane-Member s.next_pane_id s.next_window_id s.default_name
          (started_pane (s.next_pane_id + 1) cols rows) s.pane_titles refl)

  -- A new session, for any sizes, is there when its first pane starts, and is valid, with one
  -- window.
  pub new_session-IsValid :
      (name default_name : Bytes) (cols rows : ℤ) (titles : Bool)
      → (s : Session F) × (new_session name cols rows titles default_name true ≡ some s)
        × IsValid s
        × (length s.windows ≡ 1)
  new_session-IsValid name default_name cols rows titles =
      let e : Session F =
        empty_session name (size_or cols 80) (size_or rows 24) titles default_name in
      (
        (spawn_window e e.cols (content_rows e) true).0,
        (unfold new_session spawn_window in refl),
        spawn_window-IsValid e e.cols (content_rows e) true
            (record { members = tt; cur_inside = inl refl }),
        (unfold spawn_window next_win next_pane in refl),
      )

  -- removeWindowAt leaves the session valid, whatever the index.
  pub remove_window_at-IsValid :
      (s : Session F) (i : ℕ) → IsValid s → IsValid (remove_window_at s i)
  unfolding remove_window_at
  remove_window_at-IsValid s i v = record {
    members = All-without_at (Member s.next_pane_id s.next_window_id) s.windows i v.members;
    cur_inside = elim (empty_or_not (without_at s.windows i)) [
      | inl none_left ↦ inl none_left
      | inr more ↦ inr (ground arith)
    ];
  }

  -- Current, of a valid session, changes nothing.
  pub current-same : (s : Session F) → IsValid s → (current s).0 ≡ s
  unfolding current
  current-same s v = elim (Bool-cases (no_windows s.windows || ltb s.cur (length s.windows))) [
    | inl fine ↦ ground arith
    | inr bad ↦ elim (v.cur_inside) [
      | inl e ↦ absurd (ground (arith, ap (λ (l : List (Window F)). no_windows l) e))
      | inr h ↦ absurd (ground arith)
    ]
  ]

  pub current_of : (s : Session F) → IsValid s → current s ≡ (s, get_elem? s.windows s.cur)
  current_of s v =
      unfold current in ap (λ (x : Session F). (x, get_elem? x.windows x.cur)) (current-same s v)

  pub replaced-IsValid :
      (s : Session F) (w : Window F)
      → IsValid s
      → Member s.next_pane_id s.next_window_id w
      → IsValid (record s { windows = set s.windows s.cur w })
  replaced-IsValid s w v m = record {
    members = All-set (Member s.next_pane_id s.next_window_id) s.windows s.cur w v.members m;
    cur_inside = elim (v.cur_inside) [
      | inl e ↦ inl (rw e refl)
      | inr h ↦ inr (omega (arith, length-set s.windows s.cur w))
    ];
  }

module _ (f : Float64) where
  open f use {F}

  applied-Member :
      (lp nw : ℕ) (w : Window F) (cols rows : ℕ)
      → Member lp nw w
      → Member lp nw (apply_layout f w cols rows)
  applied-Member lp nw w cols rows m =
      let (same_tree, _, _) = apply_layout-SameShape f w cols rows in
      record {
        valid = apply_layout-IsValid f w cols rows m.valid;
        panes_given = rw same_tree m.panes_given;
        id_given = rw (apply_layout-id f w cols rows) m.id_given;
      }

  -- A resize of a valid session leaves it valid, at any size.
  pub resize-IsValid :
      (s : Session F) (cols rows : ℕ) → IsValid s → IsValid (resize f s cols rows).0
  unfolding resize
  resize-IsValid s cols rows v =
      elim (Bool-cases (cols == 0 || rows == 0 || (cols == s.cols && rows == s.rows))) [
        | inl same ↦ rw (same, resize) v
        | inr new ↦
            rw (new, resize)
              (record {
                members =
                    All-map (Member s.next_pane_id s.next_window_id) _
                      (λ w m. applied-Member s.next_pane_id s.next_window_id w cols _ m) s.windows
                      v.members;
                cur_inside = elim (v.cur_inside) [
                  | inl e ↦ inl (rw e refl)
                  | inr h ↦ inr (rw (length-map s.windows) h)
                ];
              })
      ]
