-- ===== src/Server/Commands/Handlers.antt =====
-- The handlers of internal/server/commands.go that move the focus or rearrange the current window.
use Prim.Native.String.{String}
use ng_mux.Prelude.{
  ℕ, ◌≡◌, inl, inr, refl, sym, ap, ◌∙◌, Bool, true, false, List, [], ◌∷◌, Option, none, some,
  Option-cases, Bool-cases, get_elem?,
}
use ng_mux.Prelude.Int.{ℤ, pos, negsuc, elem_at?}
use ng_mux.Layout.{Float64, Node}
use ng_mux.Layout.Tree.{all_panes}
use ng_mux.Layout.Edit.{fits_minimum}
use ng_mux.Layout.Arranging.{arrange-panes}
use ng_mux.Layout.Cycling.{get_elem?-contains}
use ng_mux.Server.Window.{Window, outer, apply_layout, unzoom}
use ng_mux.Server.Window.Valid.{IsValid, apply_layout-IsValid, apply_layout-SameShape}
use ng_mux.Server.Window.Changes.{unzoom-IsValid}
use ng_mux.Server.Window.Focus.{focus-IsValid, refocused-IsValid}
use ng_mux.Server.Commands.{choose_pane, select_pane, rearrange, select_layout}

module _ {F : Type 0} where
  chosen-IsValid :
      (w : Window F) (idx : Option ℤ)
      → IsValid w
      → (w' : Window F) × (choose_pane w idx ≡ some w') × IsValid w'
  unfolding choose_pane elem_at?
  chosen-IsValid w none v = focus-IsValid w v (pos 1) (inl refl)
  chosen-IsValid w (some (negsuc i)) v = (w, refl, v)
  chosen-IsValid w (some (pos i)) v = elim (Option-cases (get_elem? (all_panes w.tree) i)) [
    | inl gone ↦ (w, rw (gone, choose_pane) refl, v)
    | inr (id, found) ↦ (
      record w { active = id },
      rw (found, choose_pane) refl,
      refocused-IsValid w v id (get_elem?-contains (all_panes w.tree) i id found),
    )
  ]

module _ (f : Float64) where
  open f use {F}

  -- select-pane, with an index or without, never panics and keeps a valid window valid.
  pub select_pane-IsValid :
      (w : Window F) (idx : Option ℤ) (cols rows : ℕ)
      → IsValid w
      → (w' : Window F) × (select_pane f w idx cols rows ≡ some w') × IsValid w'
  unfolding select_pane
  select_pane-IsValid w idx cols rows v =
      chosen-IsValid (unzoom f w cols rows) idx (unzoom-IsValid f w cols rows v)

  rearranged-IsValid :
      (w : Window F) (ids : List ℕ) (name : String) (cols rows : ℕ)
      → IsValid w
      → all_panes w.tree ≡ ids
      → (w' : Window F) × (roomy : Bool) × (rearrange f w ids name cols rows ≡ some (w', roomy))
        × IsValid w'
        × (all_panes w'.tree ≡ ids)
  unfolding rearrange
  rearranged-IsValid w [] name cols rows v same = (w, true, refl, v, same)
  rearranged-IsValid w (p ∷ ids) name cols rows v same =
      let (tree, made, kept) = arrange-panes f (p ∷ ids) name in
      elim (Bool-cases (fits_minimum f tree (outer w cols rows))) [
        | inl roomy ↦
            let w' = record w { zoom = 0; tree = tree } in
            (
              apply_layout f w' cols rows,
              true,
              rw (made, rearrange) (rw roomy refl),
              apply_layout-IsValid f w' cols rows (retreed-IsValid w tree v (kept ∙ sym same)),
              ap all_panes (apply_layout-SameShape f w' cols rows).0 ∙ kept,
            )
        | inr tight ↦ (w, false, rw (made, rearrange) (rw tight refl), v, same)
      ]
    where
      retreed-IsValid :
          (w : Window F) (tree : Option (Node F))
          → IsValid w
          → all_panes tree ≡ all_panes w.tree
          → IsValid (record w { zoom = 0; tree = tree })
      retreed-IsValid w tree v e = record {
        distinct = rw e v.distinct;
        keys_distinct = v.keys_distinct;
        same_panes = λ j. rw e (v.same_panes j);
        active_present = rw e v.active_present;
        nonzero = rw e v.nonzero;
      }

  -- select-layout never panics, whatever the name of the layout, keeps a valid window valid, and
  -- keeps its panes in their order, whether there is room for the layout or not.
  pub select_layout-IsValid :
      (w : Window F) (name : String) (cols rows : ℕ)
      → IsValid w
      → (w' : Window F) × (roomy : Bool) × (select_layout f w name cols rows ≡ some (w', roomy))
        × IsValid w'
        × (all_panes w'.tree ≡ all_panes w.tree)
  unfolding select_layout
  select_layout-IsValid w name cols rows v =
      rearranged-IsValid w (all_panes w.tree) name cols rows v refl
