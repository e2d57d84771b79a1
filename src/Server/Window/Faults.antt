-- ===== src/Server/Window/Faults.antt =====
-- A window whose new pane fails to start, in internal/server/window.go.
use ng_mux.Prelude.{
  ℕ, ◌+◌, ◌≡◌, inl, inr, ◌∙◌, arith, true, false, none, length, lookup, keys, contains,
  contains-keys,
}
use ng_mux.Layout.{Float64, Axis, along, PaneId, Node, ok}
use ng_mux.Layout.Tree.{all_panes, panes}
use ng_mux.Layout.Edit.{split_pane}
use ng_mux.Layout.Splitting.{contains-insert_after}
use ng_mux.Server.Window.{Window, outer_for, split}
use ng_mux.Server.Window.Valid.{IsValid}
use ng_mux.Server.Window.Changes.{split_tree}

module _ (f : Float64) where
  open f use {F}

  -- When Split has made room for a new pane, whose id is not in the window, and its pty does not
  -- start, a valid window is left with a leaf that no pane belongs to, and is not valid any
  -- more.
  pub split_start_failure :
      (w : Window F) (m : Node F) (new : PaneId) (dir : Axis) (cols rows : ℕ)
      → IsValid w
      → contains new (all_panes w.tree) ≡ false
      → split_pane f w.tree w.active new (along dir) (outer_for w cols rows (length w.panes + 1))
        ≡ ok m
      → let w' = (split f w new dir cols rows false).0 in
        (contains new (all_panes w'.tree) ≡ true) × (lookup new w'.panes ≡ none) × (¬ IsValid w')
  unfolding split
  split_start_failure w m new dir cols rows v fresh e =
      elim (split_tree f w new dir (outer_for w cols rows (length w.panes + 1)) v) [
        | inl (x, failed) ↦ absurd (ground arith)
        | inr (m', done, made) ↦
            let shown : contains new (panes m') ≡ true = rw made (
              ground (
                arith,
                contains-insert_after w.active new new (all_panes w.tree),
                v.active_present,
              )) in
            let absent : contains new (keys w.panes) ≡ false = v.same_panes new ∙ fresh in
            let missing : lookup new w.panes ≡ none = ground (arith, contains-keys new w.panes) in
            rw (done, split)
              (
                (unfold all_panes in shown),
                missing,
                λ bad. (unfold all_panes in ground (arith, bad.same_panes new)),
              )
      ]
