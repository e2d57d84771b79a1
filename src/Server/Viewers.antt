-- ===== src/Server/Viewers.antt =====
-- internal/server/server.go: what the daemon does to the clients that view a session. A client's
-- pointer is a number.
pub mod Moving
use ng_mux.Prelude.{
  ℕ, ◌+◌, ◌-◌, ◌%◌, Bool, true, false, ◌&&◌, ◌||◌, List, [], ◌∷◌, Option, none, some, if◌then◌else◌,
  ltb, ◌==◌, length, get_elem?, Bytes, bytes_eq,
}
use ng_mux.Prelude.Int.{ℤ, pos, ltb_ℤ, pos_part}
use ng_mux.Server.Client.{Client, set_session, reset}

-- stepClientSession: the client, and whether it moved. The name is there, for the index is in range.
abbrev pub index_of : Bytes → List Bytes → Option ℕ
index_of name [] = none
index_of name (n ∷ ns) =
    if bytes_eq n name
    then some 0
    else elim (index_of name ns) [ none ↦ none | some i ↦ some (i + 1) ]

abbrev pub or_zero : Option ℕ → ℕ
or_zero none = 0
or_zero (some i) = i

unfoldable pub step_index : ℕ → ℕ → Bool → ℕ
step_index i n forward = if forward then (i + 1) % n else (i + n - 1) % n

-- fitSessions: what one viewer makes of the size so far, 0 where none is known.
unfoldable pub narrow : ℕ → ℤ → ℕ
narrow n size = if n == 0 || ltb (pos_part size) n then pos_part size else n

module _ {Frame : Type 0} where
  -- The viewers of a session that ended are pointed at no session.
  unfoldable pub detach_viewers : Bytes → List (ℕ × Client Frame) → List (ℕ × Client Frame)
  detach_viewers name [] = []
  detach_viewers name ((id, c) ∷ cs) =
      (id, if bytes_eq c.sess name then set_session c [] else c) ∷ detach_viewers name cs

  -- The clients that are sent a bye then.
  unfoldable pub viewers : Bytes → List (ℕ × Client Frame) → List ℕ
  viewers name [] = []
  viewers name ((id, c) ∷ cs) =
      if bytes_eq c.sess name then id ∷ viewers name cs else viewers name cs

  unfoldable pub move_viewers : Bytes → Bytes → List (ℕ × Client Frame) → List (ℕ × Client Frame)
  move_viewers old new [] = []
  move_viewers old new ((id, c) ∷ cs) =
      (id, if bytes_eq c.sess old then set_session c new else c) ∷ move_viewers old new cs

  unfoldable pub step_client_session : List Bytes → Client Frame → Bool → Option (Client Frame)
  step_client_session order c forward =
      if ltb (length order) 2
      then none
      else (elim (get_elem? order
          (step_index (or_zero (index_of c.sess order)) (length order) forward)) [
            | none ↦ none
            | some name ↦ some (set_session c name)
          ])

  -- listSessions
  abbrev pub is_viewed : Bytes → List (ℕ × Client Frame) → Bool
  is_viewed name [] = false
  is_viewed name ((id, c) ∷ cs) = bytes_eq c.sess name || is_viewed name cs

  unfoldable pub narrow_to : ℕ × ℕ → Client Frame → ℕ × ℕ
  narrow_to (cols, rows) c =
      if ltb_ℤ (pos 0) c.cols && ltb_ℤ (pos 0) c.rows
      then (narrow cols c.cols, narrow rows c.rows)
      else (cols, rows)

  unfoldable pub smallest : Bytes → ℕ × ℕ → List (ℕ × Client Frame) → ℕ × ℕ
  smallest name size [] = size
  smallest name size ((id, c) ∷ cs) =
      smallest name (if bytes_eq c.sess name then narrow_to size c else size) cs

  unfoldable pub reset_viewers : Bytes → List (ℕ × Client Frame) → List (ℕ × Client Frame)
  reset_viewers name [] = []
  reset_viewers name ((id, c) ∷ cs) =
      (id, if bytes_eq c.sess name then reset c else c) ∷ reset_viewers name cs
