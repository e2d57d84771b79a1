-- ===== src/Server/Window/Moves.antt =====
-- Lemmas about the invariant of a window, for a pane that is put in and one that is taken out.
use ng_mux.Prelude.{
  ◌≡◌, ◌≢◌, inl, inr, refl, sym, ap, subst, ◌∙◌, arith, true, false, List, [], ◌∷◌, some,
  if◌then◌else◌, ◌==◌, insert, erase, keys, contains, Distinct, without, contains-keys-insert,
  keys-erase, without-Distinct, contains-without, insert-Distinct, Option-cases,
}
use ng_mux.Layout.{PaneId, Node, ok}
use ng_mux.Layout.Tree.{all_panes, panes}
use ng_mux.Layout.Edit.{remove}
use ng_mux.Layout.Splitting.{insert_after, contains-insert_after, insert_after-Distinct}
use ng_mux.Layout.Removing.{remove_outcome}
use ng_mux.Server.Pane.{Pane}
use ng_mux.Server.Window.{Window, drop_leaf, is_nil}
use ng_mux.Server.Window.Valid.{IsValid}

pub some_key :
    (ps : List (PaneId × Pane)) → is_nil ps ≡ false → (j : PaneId) × (contains j (keys ps) ≡ true)
some_key [] h = absurd (ground arith)
some_key ((j, p) ∷ ps) h = (j, ground arith)

module _ {F : Type 0} where
  pub with_zoom-IsValid : (w : Window F) (z : PaneId) → IsValid w → IsValid (record w { zoom = z })
  with_zoom-IsValid w z v = record {
    distinct = v.distinct;
    keys_distinct = v.keys_distinct;
    same_panes = v.same_panes;
    active_present = v.active_present;
    nonzero = v.nonzero;
  }

  -- The tree of a valid window.
  pub tree-some : (w : Window F) → IsValid w → (n : Node F) × (w.tree ≡ some n)
  tree-some w v = elim (Option-cases w.tree) [
    | inl gone ↦ absurd (unfold all_panes in ground (arith, v.active_present))
    | inr found ↦ found
  ]

  -- A pane put in beside the active one.
  pub grown-IsValid :
      (w : Window F) (m : Node F) (new : PaneId) (p : Pane)
      → IsValid w
      → panes m ≡ insert_after w.active new (all_panes w.tree)
      → contains new (all_panes w.tree) ≡ false
      → new ≢ 0
      → IsValid (record w { zoom = 0; tree = some m; panes = insert new p w.panes; active = new })
  unfolding all_panes
  grown-IsValid w m new p v made fresh ne =
      let ids = all_panes w.tree in
      record {
        distinct = rw made (insert_after-Distinct w.active new ids v.distinct fresh);
        keys_distinct = insert-Distinct new p w.panes v.keys_distinct;
        same_panes = λ j. rw made (
            ground (
              arith,
              contains-keys-insert new j p w.panes,
              contains-insert_after w.active new j ids,
              v.same_panes j,
            ));
        active_present = rw made (ground (arith, contains-insert_after w.active new new ids));
        nonzero = rw made (ground (arith, contains-insert_after w.active new 0 ids));
      }

  others_left :
      (w : Window F) (n : Node F) (t j : PaneId)
      → IsValid w
      → all_panes w.tree ≡ panes n
      → contains j (without t (keys w.panes)) ≡ true
      → panes n ≢ t ∷ []
  others_left w n t j v held left only = ground (
    arith,
    contains-without t j (keys w.panes),
    v.same_panes j,
    ap (contains j) held,
    ap (contains j) only,
  )

  left_over-IsValid :
      (w : Window F) (n m : Node F) (t next : PaneId)
      → all_panes w.tree ≡ panes n
      → IsValid w
      → panes m ≡ without t (panes n)
      → contains next (panes m) ≡ true
      → IsValid (record w {
        panes = erase t w.panes;
        tree = some m;
        active = if w.active == t then next else w.active;
      })
  unfolding all_panes
  left_over-IsValid w n m t next held v pm next_in =
      let rest : panes m ≡ without t (all_panes w.tree) = pm ∙ ap (without t) (sym held) in
      let ids = all_panes w.tree in
      record {
        distinct = rw rest (without-Distinct t ids v.distinct);
        keys_distinct =
            rw (keys-erase t w.panes) (without-Distinct t (keys w.panes) v.keys_distinct);
        same_panes = λ j.
            rw (rest, keys-erase t w.panes)
              (ground (
                arith,
                contains-without t j (keys w.panes),
                contains-without t j ids,
                v.same_panes j,
              ));
        active_present = ground (
          arith,
          next_in,
          ap (contains w.active) rest,
          contains-without t w.active ids,
          v.active_present,
        );
        nonzero = rw rest (ground (arith, contains-without t 0 ids, v.nonzero));
      }

  -- A pane taken out, with others left.
  pub shrunk-IsValid :
      (w : Window F) (n : Node F) (t : PaneId)
      → w.tree ≡ some n
      → IsValid w
      → contains t (keys w.panes) ≡ true
      → is_nil (erase t w.panes) ≡ false
      → IsValid (drop_leaf (record w { panes = erase t w.panes }) t)
  unfolding drop_leaf
  shrunk-IsValid w n t is_n v here more =
      let held : all_panes w.tree ≡ panes n = ap all_panes is_n ∙ (unfold all_panes in refl) in
      let (j, left) = some_key (erase t w.panes) more in
      let left' = sym (ap (contains j) (keys-erase t w.panes)) ∙ left in
      let others = others_left w n t j v held left' in
      let present = ap (contains t) (sym held) ∙ sym (v.same_panes t) ∙ here in
      let (m, next, removed, pm, next_in) =
        (remove_outcome n t (subst Distinct held v.distinct)).2 present others in
      let result : remove w.tree t ≡ ok (m, next) = rw is_n removed in
      let now : drop_leaf (record w { panes = erase t w.panes }) t ≡ record w {
        panes = erase t w.panes;
        tree = some m;
        active = if w.active == t then next else w.active;
      } =
        rw (result, drop_leaf) in
      subst IsValid (sym now) (left_over-IsValid w n m t next held v pm next_in)
