-- ===== src/Server/Commands.antt =====
-- internal/server/commands.go: what the handlers read from their arguments and do to the current
-- window. strconv.Atoi is the parameter `atoi`.
pub mod Arguments
pub mod Handlers
use Prim.Native.String.{String}
use ng_mux.Prelude.{
  ℕ, ◌+◌, Bool, true, false, not, ◌&&◌, ◌||◌, List, [], ◌∷◌, ◌++◌, Option, none, some,
  if◌then◌else◌, length, lookup, modify, Bytes, bytes_eq, codes,
}
use ng_mux.Prelude.Int.{ℤ, pos, negsuc, sub_ℕ, pos_part, neg_part, elem_at?}
use ng_mux.Layout.{Float64, Orientation, at_leaf, along, horizontal, vertical}
use ng_mux.Layout.Tree.{all_panes}
use ng_mux.Layout.Edit.{fits_minimum}
use ng_mux.Layout.Arrange.{arrange}
use ng_mux.Server.Pane
use ng_mux.Server.Paste.{has_prefix}
use ng_mux.Server.Window.{Window, outer, apply_layout, unzoom, focus}

unfoldable pub has_flag : List Bytes → Bytes → Bool
has_flag [] flag = false
has_flag (a ∷ args) flag = bytes_eq a flag || has_flag args flag

-- takeFlagValue: the value, and the arguments without the flag and the value.
unfoldable pub take_flag_value : List Bytes → Bytes → Bytes × List Bytes
take_flag_value [] flag = ([], [])
take_flag_value (a ∷ []) flag = ([], a ∷ [])
take_flag_value (a ∷ b ∷ args) flag =
    let rest = take_flag_value (b ∷ args) flag in
    if bytes_eq a flag then (b, args) else (rest.0, a ∷ rest.1)

abbrev pub is_empty : Bytes → Bool
is_empty [] = true
is_empty (x ∷ xs) = false

abbrev pub first_plain : List Bytes → Bytes
first_plain [] = []
first_plain (a ∷ args) = if has_prefix (codes "-") a then first_plain args else a

unfoldable pub session_name_arg : List Bytes → Bytes
session_name_arg args =
    let s = (take_flag_value args (codes "-s")).0 in
    let t = (take_flag_value args (codes "-t")).0 in
    if not (is_empty s) then s else if not (is_empty t) then t else first_plain args

abbrev pub resize_step : ℕ
resize_step = 2

abbrev pub minus : ℤ → ℤ
minus v = sub_ℕ (neg_part v) (pos_part v)

module _ (atoi : Bytes → Option ℤ) where
  unfoldable pub first_int : List Bytes → Option ℤ
  first_int [] = none
  first_int (a ∷ args) = elim (atoi a) [ none ↦ first_int args | some v ↦ some v ]

  -- resizePaneArgs; `none` where it reports that there is no direction.
  unfoldable pub resize_pane_args : List Bytes → Option (Orientation × ℤ)
  unfolding has_flag
  resize_pane_args args =
      let step : ℤ = elim (first_int args) [ none ↦ pos resize_step | some v ↦ v ] in
      if has_flag args (codes "-L")
      then some (along horizontal, minus step)
      else if has_flag args (codes "-R")
      then some (along horizontal, step)
      else if has_flag args (codes "-U")
      then some (along vertical, minus step)
      else if has_flag args (codes "-D")
      then some (along vertical, step)
      else none

module _ {F : Type 0} where
  -- kill-pane: the pane is closed; it leaves the window when its exit is reaped.
  unfoldable pub kill_pane : Window F → Window F
  kill_pane w = record w { panes = modify w.active Pane.close w.panes }

  unfoldable pub rename_window : Window F → Bytes → Window F
  rename_window w name = if is_empty name then w else record w { name = name }

  -- The choice of select-pane: the pane at the index, if there is one, or the next pane.
  unfoldable pub choose_pane : Window F → Option ℤ → Option (Window F)
  choose_pane w none = focus w (pos 1)
  choose_pane w (some idx) = elim (elem_at? (all_panes w.tree) idx) [
    | none ↦ some w
    | some id ↦ some (record w { active = id })
  ]

module _ (f : Float64) where
  open f use {F}

  -- select-pane; `none` is a panic, as in the handlers below.
  unfoldable pub select_pane : Window F → Option ℤ → ℕ → ℕ → Option (Window F)
  select_pane w idx cols rows = choose_pane (unzoom f w cols rows) idx

  unfoldable pub previous_pane : Window F → ℕ → ℕ → Option (Window F)
  previous_pane w cols rows = focus (unzoom f w cols rows) (negsuc 0)

  -- select-layout with the panes `ids` of the window: the window, and whether there was room.
  unfoldable pub rearrange : Window F → List ℕ → String → ℕ → ℕ → Option (Window F × Bool)
  rearrange w [] name cols rows = some (w, true)
  rearrange w (p ∷ ids) name cols rows = elim (arrange f (p ∷ ids) name) [
    | none ↦ none
    | some tree ↦
        if fits_minimum f tree (outer w cols rows)
        then some (apply_layout f (record w { zoom = 0; tree = tree }) cols rows, true)
        else some (w, false)
  ]

  unfoldable pub select_layout : Window F → String → ℕ → ℕ → Option (Window F × Bool)
  select_layout w name cols rows = rearrange w (all_panes w.tree) name cols rows
