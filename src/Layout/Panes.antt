-- ===== src/Layout/Panes.antt =====
-- Lemmas about find and Panes of internal/layout/layout.go.
use ng_mux.Prelude.{
  ◌≡◌, true, arith, contains, contains-append, ◌≤◌, length, length-append, is_some,
}
use ng_mux.Layout.{PaneId, Node, leaf, split}
use ng_mux.Layout.Tree.{panes, first_leaf, find}

module _ {F : Type 0} where
  pub find-contains : (n : Node F) (t : PaneId) → is_some (find n t) ≡ contains t (panes n)
  unfolding find panes
  find-contains (leaf p) t = ground arith
  find-contains (split o q a b) t =
      ground (arith, find-contains a t, find-contains b t, contains-append t (panes a) (panes b))

  pub contains-first_leaf : (n : Node F) → contains (first_leaf n) (panes n) ≡ true
  unfolding first_leaf panes
  contains-first_leaf (leaf p) = ground arith
  contains-first_leaf (split o q a b) =
      ground (arith, contains-first_leaf a, contains-append (first_leaf a) (panes a) (panes b))

  pub length-panes : (n : Node F) → 1 ≤ length (panes n)
  unfolding panes
  length-panes (leaf p) = omega arith
  length-panes (split o q a b) = omega (arith, length-panes a, length-append (panes a) (panes b))
