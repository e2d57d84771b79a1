-- ===== src/Vterm/History/Memory.antt =====
-- The scrollback of internal/vterm/vterm.go as a plain list of lines with a limit.
use ng_mux.Prelude.{
  ℕ, ◌+◌, ◌≡◌, refl, ap, ◌∙◌, arith, true, List, [], ◌∷◌, ◌++◌, if◌then◌else◌, ◌==◌, inl, inr,
  Bool-cases, length-replicate, last,
}
use ng_mux.Prelude.Int.{ℤ, pos_part}
use ng_mux.Vterm.Cells.{Glyph}
use ng_mux.Vterm.History.{
  Row, History, new_history, stored_row, push_row, push_history, set_history_limit,
}
use ng_mux.Vterm.History.Ring.{
  rows, IsValid, push_row-IsValid, rows-push_row, set_history_limit-IsValid, rows-set_history_limit,
}

-- What happens to a scrollback.
pub data Event : Type 0 where
  scrolls : List Glyph → Event
  limits : ℤ → Event

pub record Memory : Type 0 where
  pub limit : ℕ
  pub lines : List Row
  pub total : ℕ

-- The specification: the newest lines, as many as the limit allows.
pub remember : Memory → Event → Memory
remember m (scrolls gs) =
    if m.limit == 0
    then m
    else record m { lines = last m.limit (m.lines ++ stored_row gs ∷ []); total = m.total + 1 }
remember m (limits n) = record m { limit = pos_part n; lines = last (pos_part n) m.lines }

pub remember_all : Memory → List Event → Memory
remember_all m [] = m
remember_all m (e ∷ es) = remember_all (remember m e) es

-- The code.
unfoldable pub handle : History → Event → History
handle h (scrolls gs) = push_history h gs
handle h (limits n) = set_history_limit h n

unfoldable pub handle_all : History → List Event → History
handle_all h [] = h
handle_all h (e ∷ es) = handle_all (handle h e) es

-- The memory that a ring stands for.
unfoldable pub memory : History → Memory
memory h = record { limit = h.cap; lines = rows h; total = h.scrolled_total }

new_history-IsValid : (cap : ℕ) → IsValid (new_history cap)
unfolding new_history
new_history-IsValid cap = record {
  sized = length-replicate cap [];
  within = omega arith;
  headed = ground arith;
}

cap-push_row : (h : History) (row : Row) → (push_row h row).cap ≡ h.cap
unfolding push_row
cap-push_row h row = ground arith

total-push_row :
    (h : History) (row : Row)
    → (push_row h row).scrolled_total
      ≡ (if h.cap == 0 then h.scrolled_total else h.scrolled_total + 1)
unfolding push_row
total-push_row h row = ground arith

push_row-off : (h : History) (row : Row) → (h.cap == 0) ≡ true → push_row h row ≡ h
unfolding push_row
push_row-off h row e = rw e

same_memory :
    {a b m n : ℕ} {xs ys : List Row}
    → a ≡ b
    → xs ≡ ys
    → m ≡ n
    → Path Memory
        (record { limit = a; lines = xs; total = m })
        (record { limit = b; lines = ys; total = n })
same_memory p q r = rw (p, q, r)

memory-push_history :
    (h : History) (gs : List Glyph)
    → IsValid h
    → memory (push_history h gs) ≡ remember (memory h) (scrolls gs)
unfolding memory remember push_history
memory-push_history h gs v = elim (Bool-cases (h.cap == 0)) [
  | inl e ↦ rw (e, push_row-off h (stored_row gs) e)
  | inr e ↦
      let counted : (push_row h (stored_row gs)).scrolled_total ≡ h.scrolled_total + 1 =
        ground (arith, total-push_row h (stored_row gs)) in
      rw e
        (same_memory (cap-push_row h (stored_row gs)) (rows-push_row h v (stored_row gs)) counted)
]

cap-set_history_limit : (h : History) (n : ℤ) → (set_history_limit h n).cap ≡ pos_part n
unfolding set_history_limit
cap-set_history_limit h n = ground arith

total-set_history_limit :
    (h : History) (n : ℤ) → (set_history_limit h n).scrolled_total ≡ h.scrolled_total
unfolding set_history_limit
total-set_history_limit h n = ground arith

memory-handle : (h : History) (e : Event) → IsValid h → memory (handle h e) ≡ remember (memory h) e
unfolding handle
memory-handle h (scrolls gs) v = memory-push_history h gs v
memory-handle h (limits n) v =
    unfold memory remember in
    (same_memory (cap-set_history_limit h n) (rows-set_history_limit h v n)
      (total-set_history_limit h n))

handle-IsValid : (h : History) (e : Event) → IsValid h → IsValid (handle h e)
unfolding handle push_history
handle-IsValid h (scrolls gs) v = push_row-IsValid h v (stored_row gs)
handle-IsValid h (limits n) v = set_history_limit-IsValid h v n

memory-handle_all :
    (h : History) (es : List Event)
    → IsValid h
    → memory (handle_all h es) ≡ remember_all (memory h) es
unfolding handle_all remember_all
memory-handle_all h [] v = refl
memory-handle_all h (e ∷ es) v =
    memory-handle_all (handle h e) es (handle-IsValid h e v)
    ∙ ap (λ m. remember_all m es) (memory-handle h e v)

memory-new_history :
    (cap : ℕ) → memory (new_history cap) ≡ record { limit = cap; lines = []; total = 0 }
unfolding memory new_history rows
memory-new_history cap = refl

-- From a new scrollback of any capacity, over any sequence of lines that scroll off and changes
-- of the limit, the ring of slots stands for the list that the specification keeps: the stored
-- text of the newest lines, as many as the limit allows, oldest first, with a count of all lines
-- that scrolled off while the limit was not 0.
pub handle_all-refines :
    (cap : ℕ) (es : List Event)
    → memory (handle_all (new_history cap) es)
      ≡ remember_all (record { limit = cap; lines = []; total = 0 }) es
handle_all-refines cap es =
    memory-handle_all (new_history cap) es (new_history-IsValid cap)
    ∙ ap (λ m. remember_all m es) (memory-new_history cap)
