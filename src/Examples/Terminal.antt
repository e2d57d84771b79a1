-- ===== src/Examples/Terminal.antt =====
-- The theorems about internal/vterm and internal/protocol at concrete inputs.
use ng_mux.Prelude.{
  ℕ, ◌-◌, ◌≡◌, refl, arith, List, [], ◌∷◌, ◌++◌, some, Bytes, codes, length, take, drop, map, last,
  replicate, max, min, inr, is_some, true, false, ltb, leb, ◌||◌, get_or,
}
use ng_mux.Prelude.Int.{pos, pos_part}
use ng_mux.Vterm.Cells.{Glyph, Cell, default_fg, default_bg}
use ng_mux.Vterm.Feed.{Library, Term, takes}
use ng_mux.Vterm.Feed.Pieces.{Passes, write_pieces, write_pieces-Passes}
use ng_mux.Vterm.Replies.{new_reply_queue, offer, starts, next, close}
use ng_mux.Vterm.Replies
use ng_mux.Vterm.Replies.Delivery.{IsInOrder, Reach-IsInOrder}
use ng_mux.Vterm.History.{Row, History, new_history, fit, scrollback_view}
use ng_mux.Vterm.History.Ring.{rows, IsValid}
use ng_mux.Vterm.History.Memory.{
  Event, scrolls, limits, memory, handle_all, remember_all, handle_all-refines,
}
use ng_mux.Vterm.History.View.{scrollback_view_lem}
use ng_mux.Protocol.{Message, Json, write_payload, read, put_u32}
use ng_mux.Protocol
use ng_mux.Protocol.Framing.{read_all, read-cut, ReadsBack, cut_error}
use ng_mux.Protocol.Sending.{
  Sender, Conn, new_conn, lock, begin_write, emit, finish, begins, emits, finishes,
}
use ng_mux.Protocol.Sending
use ng_mux.Protocol.Sending.Interleaving.{Reach-read_all}

abbrev glyph : ℕ → Glyph
glyph c = record { char = c; mode = 0; fg = default_fg; bg = default_bg }

abbrev letter : ℕ → Cell
letter c = record { ch = c; fg = default_fg; bg = default_fg; attr = 0; width = 1 }

abbrev some_events : List Event
some_events =
    scrolls (glyph b'a' ∷ glyph b' ' ∷ [])
    ∷ scrolls (glyph b'b' ∷ [])
    ∷ scrolls (glyph b'c' ∷ [])
    ∷ limits (pos 1)
    ∷ limits (pos 4)
    ∷ scrolls []
    ∷ []

handle_all-refines_example :
    memory (handle_all (new_history 2) some_events)
    ≡ remember_all (record { limit = 2; lines = []; total = 0 }) some_events
handle_all-refines_example = handle_all-refines 2 some_events

-- A full ring of two rows whose oldest stands second.
abbrev turned : History
turned = record {
  cap = 2;
  buf = (letter b'b' ∷ []) ∷ (letter b'a' ∷ []) ∷ [];
  head = 1;
  len = 2;
  scrolled_total = 2;
}

turned-IsValid : IsValid turned
turned-IsValid = record { sized = refl; within = omega arith; headed = inr (omega arith) }

abbrev live_screen : List Row
live_screen = (letter b'c' ∷ []) ∷ (letter b'd' ∷ []) ∷ []

scrollback_view_lem_example :
    scrollback_view turned live_screen 1 (pos 1) (pos 5)
    ≡ map (fit 1) (
        last (max 1 (pos_part (pos 5))) (
          replicate (max 1 (pos_part (pos 5))) []
          ++ take
              (length (rows turned ++ live_screen) - min turned.len (pos_part (pos 1)))
              (rows turned ++ live_screen)))
scrollback_view_lem_example =
    scrollback_view_lem turned turned-IsValid live_screen 1 (pos 1) (pos 5)

-- Messages that carry bytes only, and a JSON that is those bytes.
abbrev carrying : Bytes → Message
carrying d = record {
  kind = codes "input";
  cols = pos 0;
  rows = pos 0;
  n = pos 0;
  mx = pos 0;
  my = pos 0;
  mb = pos 0;
  body = d;
  name = [];
  sessions = [];
}

abbrev bytes_only : Json
bytes_only = record { marshal = λ m. some m.body; unmarshal = λ d. some (carrying d) }

carrying-ReadsBack : (d : Bytes) → ReadsBack bytes_only (carrying d)
carrying-ReadsBack d payload h = ground arith

-- One message, locked, handed over in a piece of five bytes and one of a byte, and done.
abbrev ls_sender : Sender
ls_sender = record { message = carrying (codes "ls"); left = put_u32 2 ++ codes "ls" }

abbrev begun : Conn
begun = record new_conn { locked = true; senders = ls_sender ∷ [] }

abbrev last_byte : Sender
last_byte = record ls_sender { left = drop 5 (put_u32 2 ++ codes "ls") }

abbrev all_out : Sender
all_out = record ls_sender { left = drop 1 (drop 5 (put_u32 2 ++ codes "ls")) }

Reach-read_all_example :
    let c = finish (emit (emit begun [] ls_sender [] 5) [] last_byte [] 1) [] all_out [] in
    read_all bytes_only (length c.sent) c.wire ≡ c.sent
Reach-read_all_example =
    Reach-read_all bytes_only
      (Sending.next
        (Sending.next
          (Sending.next
            (Sending.next Sending.start (
              begins new_conn begun (carrying (codes "ls"))
                (unfold begin_write lock Protocol.write write_payload in refl)))
            (emits begun [] ls_sender [] 5 refl))
          (emits (emit begun [] ls_sender [] 5) [] last_byte [] 1 (unfold emit in refl)))
        (finishes (emit (emit begun [] ls_sender [] 5) [] last_byte [] 1) [] all_out []
          (unfold emit in refl) (unfold put_u32 in refl)))
      (unfold finish emit in refl) (unfold finish emit in (carrying-ReadsBack (codes "ls"), tt))

read-cut_example : read bytes_only (take 5 (put_u32 2 ++ codes "ls")) ≡ cut_error bytes_only 5
read-cut_example =
    read-cut bytes_only (carrying (codes "ls")) (put_u32 2 ++ codes "ls") 5
      (unfold Protocol.write write_payload put_u32 in refl) (unfold put_u32 in omega arith)

-- One reply, written, queued and received.
abbrev one_reply : Bytes
one_reply = codes "6c"

Reach-IsInOrder_example :
    let q = offer (record (Replies.write new_reply_queue one_reply) { senders = [] }) one_reply in
    IsInOrder q × (is_some (close q) ≡ true)
Reach-IsInOrder_example = Reach-IsInOrder (
    next (next starts (Replies.writes new_reply_queue one_reply)) (
      Replies.offers (Replies.write new_reply_queue one_reply) [] one_reply []
        (unfold Replies.write in refl)))

-- An emulator that keeps what it was fed, and runes of one or two bytes.
abbrev recorder : Library
recorder = record {
  Emulator = Bytes;
  feed = λ e p. takes (e ++ p);
  new_emulator = λ cols rows. [];
  rune_start = λ b. ltb b 128 || leb 192 b;
  full_rune = λ p. ltb 1 (length p) || ltb (get_or p 0 0) 192;
}

abbrev new_term : Term Bytes
new_term = record {
  emulator = [];
  cols = 80;
  rows = 24;
  dirty = false;
  pending = [];
  frozen_on = false;
}

-- A rune of two bytes that is cut in its middle.
write_pieces-Passes_example :
    Passes recorder
      (65 ∷ 195 ∷ 169 ∷ [])
      (write_pieces recorder new_term ((65 ∷ 195 ∷ []) ∷ (169 ∷ []) ∷ []))
write_pieces-Passes_example =
    write_pieces-Passes recorder (λ e p. refl) new_term ((65 ∷ 195 ∷ []) ∷ (169 ∷ []) ∷ []) tt
