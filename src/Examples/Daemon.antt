-- ===== src/Examples/Daemon.antt =====
-- The theorems about the input queue, paste, command line, copy-mode and mouse of internal/server at
-- concrete inputs.
use ng_mux.Prelude.{
  ℕ, ◌≤◌, get_or, false, List, ◌+◌, ◌-◌, ◌<◌, ◌≡◌, ◌⊎◌, refl, arith, true, false, [], ◌∷◌, ◌++◌,
  some, codes,
}
use ng_mux.Prelude.Int.{pos}
use ng_mux.Server.InputQueue.{initial, push, pushes, Reach, start, next}
use ng_mux.Server.InputQueue.Delivery.{Inv, Reach-Inv}
use ng_mux.Server.Command.Tokenize.{tokenize, join_args}
use ng_mux.Server.Command.RoundTrip.{tokenize-join_args}
use ng_mux.Server.CopyMode.{key, sync, line_at, new_copy_state}
use ng_mux.Server.CopyMode.Bounds.{IsValid, key-IsValid, new_copy_state-IsValid}
use ng_mux.Server.CopyMode.Anchor.{sync-line_at}
use ng_mux.Server.Tabs.{visible_tabs, fits_in}
use ng_mux.Server.Tabs.Choice.{run_width, visible_tabs_chosen}
use ng_mux.Server.Paste.{esc, paste_start, paste_end, bracket_paste}
use ng_mux.Server.Paste.Markers.{
  NoEsc, marked, unmarked, bracket_paste-marked, bracket_paste_ends_early,
}

pushed : Reach (push initial (codes "ls")).0
pushed = next start (pushes initial (codes "ls"))

Reach-Inv_example : Inv (push initial (codes "ls")).0
Reach-Inv_example = Reach-Inv pushed

tokenize-join_args_example :
    tokenize (join_args (codes "send-keys" ∷ codes "it's" ∷ [] ∷ []))
    ≡ codes "send-keys" ∷ codes "it's" ∷ [] ∷ []
tokenize-join_args_example = tokenize-join_args (codes "send-keys" ∷ codes "it's" ∷ [] ∷ [])

scrolled-IsValid : IsValid (new_copy_state 80 24) 100
scrolled-IsValid = new_copy_state-IsValid 80 24 100 (omega arith) (omega arith)

key-IsValid_example : IsValid (key (new_copy_state 80 24) (codes "g") 100).state 100
key-IsValid_example = key-IsValid (new_copy_state 80 24) (codes "g") 100 scrolled-IsValid

sync-line_at_example :
    (line_at (sync (new_copy_state 80 24) 7 100) (pos 3) ≡ line_at (new_copy_state 80 24) (pos 3))
    ⊎ ((100 < (new_copy_state 80 24).offset + (7 - (new_copy_state 80 24).seen))
        × ((sync (new_copy_state 80 24) 7 100).offset ≡ 100))
sync-line_at_example =
    sync-line_at (new_copy_state 80 24) 7 100 (pos 3) (unfold new_copy_state in omega arith)
      (unfold new_copy_state in omega arith)

ab-NoEsc : NoEsc (codes "ab")
ab-NoEsc = refl

bracket_paste-marked_example :
    (bracket_paste (some true) (marked (codes "ab") (codes "ab" ∷ []))
      ≡ paste_start ++ (unmarked (codes "ab") (codes "ab" ∷ []) ++ paste_end))
    × (bracket_paste (some false) (marked (codes "ab") (codes "ab" ∷ []))
        ≡ marked (codes "ab") (codes "ab" ∷ []))
bracket_paste-marked_example =
    bracket_paste-marked (codes "ab") (codes "ab" ∷ []) ab-NoEsc (ab-NoEsc, tt)

bracket_paste_ends_early_example :
    bracket_paste
      (some true)
      (codes "ab" ++ ((esc ∷ codes "[20") ++ (paste_end ++ (codes "1~" ++ codes "ab"))))
    ≡ paste_start ++ ((codes "ab" ++ (paste_end ++ codes "ab")) ++ paste_end)
bracket_paste_ends_early_example =
    bracket_paste_ends_early (codes "ab") (codes "ab") ab-NoEsc ab-NoEsc

visible_tabs_chosen_example :
    let widths : List ℕ = 6 ∷ 7 ∷ 5 ∷ 9 ∷ [] in
    let t = visible_tabs widths (pos 20) 1 in
    (t.lo ≤ 1)
    × (1 ≤ t.hi)
    × (t.hi < 4)
    × ((fits_in (run_width widths t) (pos 20) ≡ true) ⊎ ((t.lo ≡ 1) × (t.hi ≡ 1)))
    × ((t.hi + 1 ≡ 4)
        ⊎ (fits_in (run_width widths t + get_or widths (t.hi + 1) 0) (pos 20) ≡ false))
    × ((t.lo ≡ 0) ⊎ (fits_in (run_width widths t + get_or widths (t.lo - 1) 0) (pos 20) ≡ false))
visible_tabs_chosen_example = visible_tabs_chosen (6 ∷ 7 ∷ 5 ∷ 9 ∷ []) (pos 20) 1 (omega arith)
