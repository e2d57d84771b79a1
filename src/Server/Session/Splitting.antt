-- ===== src/Server/Session/Splitting.antt =====
-- split-window of internal/server/commands.go on a valid session.
use ng_mux.Prelude.{
  All-mono, All-get_elem?, ℕ, ◌+◌, ◌≤◌, ◌≡◌, inl, inr, refl, sym, ap, subst, ◌∙◌, arith, true,
  false, List, [], ◌∷◌, none, some, ◌==◌, length, contains, Option-cases, Bool-cases, All,
  get_elem?, set,
}
use ng_mux.Layout.{Float64, Axis}
use ng_mux.Layout.Tree.{all_panes}
use ng_mux.Layout.Splitting.{insert_after}
use ng_mux.Server.Window.{Window, split, outer_for}
use ng_mux.Server.Window.Valid.{apply_layout-SameShape, apply_layout-id}
use ng_mux.Server.Window.Changes.{split-IsValid, split_tree}
use ng_mux.Server.Session.{Session, content_rows, next_pane, split_window, split_current}
use ng_mux.Server.Session.Valid.{Member, IsValid, Member-later, current_of, replaced-IsValid}

All-insert_after :
    (P : ℕ → Type 0) (t v : ℕ) (xs : List ℕ) → All P xs → P v → All P (insert_after t v xs)
All-insert_after P t v [] h k = tt
All-insert_after P t v (x ∷ xs) h k = elim (Bool-cases (x == t)) [
  | inl here ↦ rw here (h.0, (k, h.1))
  | inr on ↦ rw on (h.0, All-insert_after P t v xs h.1 k)
]

fresh_absent : (n : ℕ) (xs : List ℕ) → All (λ j. j ≤ n) xs → contains (n + 1) xs ≡ false
fresh_absent n [] h = refl
fresh_absent n (x ∷ xs) h = ground (arith, fresh_absent n xs h.1, h.0)

module _ (f : Float64) where
  open f use {F}

  split-Member :
      (lp nw : ℕ) (w : Window F) (dir : Axis) (cols rows : ℕ)
      → Member lp nw w
      → Member (lp + 1) nw (split f w (lp + 1) dir cols rows true).0
  unfolding split
  split-Member lp nw w dir cols rows m = record {
    valid =
        split-IsValid f w (lp + 1) dir cols rows m.valid
          (fresh_absent lp (all_panes w.tree) m.panes_given) (omega arith);
    panes_given =
        elim (split_tree f w (lp + 1) dir (outer_for w cols rows (length w.panes + 1)) m.valid) [
          | inl (e, failed) ↦
              rw (failed, split)
                (All-mono (λ j. j ≤ lp) (λ j. j ≤ lp + 1) (λ j g. omega arith) (all_panes w.tree)
                  m.panes_given)
          | inr (t, done, made) ↦
              rw (done, split)
                (rw (apply_layout-SameShape f _ cols rows).0 (
                  unfold all_panes in
                  rw made (
                    All-insert_after (λ j. j ≤ lp + 1) w.active (lp + 1) (all_panes w.tree)
                      (All-mono (λ j. j ≤ lp) (λ j. j ≤ lp + 1) (λ j g. omega arith)
                        (all_panes w.tree) m.panes_given)
                      (omega arith))))
        ];
    id_given =
        elim (split_tree f w (lp + 1) dir (outer_for w cols rows (length w.panes + 1)) m.valid) [
          | inl (e, failed) ↦ rw (failed, split) m.id_given
          | inr (t, done, made) ↦ rw (done, split) (rw (apply_layout-id f) m.id_given)
        ];
  }

  split_window-done :
      (s : Session F) (w : Window F) (dir : Axis)
      → IsValid s
      → get_elem? s.windows s.cur ≡ some w
      → let s' = record s { next_pane_id = s.next_pane_id + 1 } in
        (split_window f s dir true).0 ≡ record s' {
          windows =
              set s.windows s.cur
                (split f w (s.next_pane_id + 1) dir s.cols (content_rows s') true).0;
        }
  unfolding split_window split_current next_pane
  split_window-done s w dir v found =
      ap (λ c. (split_current f c.0 c.1 dir true).0) (current_of s v)
      ∙ ap (λ o. (split_current f s o dir true).0) found

  split_window-none :
      (s : Session F) (dir : Axis)
      → IsValid s
      → get_elem? s.windows s.cur ≡ none
      → (split_window f s dir true).0 ≡ s
  unfolding split_window split_current
  split_window-none s dir v gone =
      ap (λ c. (split_current f c.0 c.1 dir true).0) (current_of s v)
      ∙ ap (λ o. (split_current f s o dir true).0) gone

  -- split-window on a valid session, with a pane that starts, leaves it valid, whether there is
  -- room or not.
  pub split_window-IsValid :
      (s : Session F) (dir : Axis) → IsValid s → IsValid (split_window f s dir true).0
  split_window-IsValid s dir v = elim (Option-cases (get_elem? s.windows s.cur)) [
    | inl gone ↦ subst IsValid (sym (split_window-none s dir v gone)) v
    | inr (w, found) ↦
        let s' = record s { next_pane_id = s.next_pane_id + 1 } in
        let lp = s.next_pane_id in
        let nw = s.next_window_id in
        let w' = (split f w (lp + 1) dir s.cols (content_rows s') true).0 in
        let v' : IsValid s' = record {
          members =
              All-mono (Member lp nw) (Member (lp + 1) nw)
                (λ x mx. Member-later lp nw (lp + 1) nw x (omega arith) (omega arith) mx) s.windows
                v.members;
          cur_inside = v.cur_inside;
        } in
        let m =
          split-Member lp nw w dir s.cols (content_rows s')
            (All-get_elem? (Member lp nw) s.windows s.cur w v.members found) in
        subst IsValid (sym (split_window-done s w dir v found)) (replaced-IsValid s' w' v' m)
  ]
