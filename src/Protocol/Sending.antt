-- ===== src/Protocol/Sending.antt =====
-- Conn.Write of internal/protocol/protocol.go by any number of goroutines. The stream takes the
-- bytes of one Write a piece at a time, and may fail at any point; writeBuf, which only the holder of
-- writeMu touches, is the buffer that the caller has still to hand over.
pub mod Interleaving
use ng_mux.Prelude.{
  ℕ, ◌≡◌, Bool, true, false, List, [], ◌∷◌, ◌++◌, Option, none, some, if◌then◌else◌, Bytes, take,
  drop,
}
use ng_mux.Protocol.{Message, Json, WriteResult, written, marshal_failed, too_large, write}

-- A caller past writeMu.Lock: its message, and what it has still to hand to the stream.
pub record Sender : Type 0 where
  pub message : Message
  pub left : Bytes

-- Conn with its callers, the bytes on the stream, the messages whose Write has returned with
-- success, and whether a Write of the stream has failed.
pub record Conn : Type 0 where
  pub locked : Bool
  pub senders : List Sender
  pub wire : Bytes
  pub sent : List Message
  pub failed : Bool

abbrev pub new_conn : Conn
new_conn = record { locked = false; senders = []; wire = []; sent = []; failed = false }

-- writeMu.Lock and the filling of the buffer; `none` while another caller has the lock.
unfoldable pub lock : Conn → Message → Bytes → Option Conn
lock c m buf =
    if c.locked
    then none
    else some
        (record c { locked = true; senders = c.senders ++ record { message = m; left = buf } ∷ [] })

-- Conn.Write up to the stream; a message that has no frame leaves the connection alone.
unfoldable pub begin_write : Conn → Message → WriteResult → Option Conn
begin_write c m (written buf) = lock c m buf
begin_write c m marshal_failed = some c
begin_write c m (too_large n) = some c

-- The stream takes some bytes of a caller's buffer.
unfoldable pub emit : Conn → List Sender → Sender → List Sender → ℕ → Conn
emit c before s after k = record c {
  wire = c.wire ++ take k s.left;
  senders = before ++ record s { left = drop k s.left } ∷ after;
}

-- The deferred Unlock of a caller whose Write of the stream has returned.
abbrev pub unlock : Conn → List Sender → List Sender → Conn
unlock c before after = record c { locked = false; senders = before ++ after }

-- A Write that has handed over everything returns.
unfoldable pub finish : Conn → List Sender → Sender → List Sender → Conn
finish c before s after = record (unlock c before after) { sent = c.sent ++ s.message ∷ [] }

-- A Write that the stream fails returns its error.
unfoldable pub fail : Conn → List Sender → List Sender → Conn
fail c before after = record (unlock c before after) { failed = true }

pub data Step (json : Json) : Conn → Conn → Type 0 where
  begins : (c d : Conn) (m : Message) → begin_write c m (write json m) ≡ some d → Step json c d
  emits :
      (c : Conn) (before : List Sender) (s : Sender) (after : List Sender) (k : ℕ)
      → c.senders ≡ before ++ s ∷ after
      → Step json c (emit c before s after k)
  finishes :
      (c : Conn) (before : List Sender) (s : Sender) (after : List Sender)
      → c.senders ≡ before ++ s ∷ after
      → s.left ≡ []
      → Step json c (finish c before s after)
  fails :
      (c : Conn) (before : List Sender) (s : Sender) (after : List Sender)
      → c.senders ≡ before ++ s ∷ after
      → Step json c (fail c before after)

pub data Reach (json : Json) : Conn → Type 0 where
  start : Reach json new_conn
  next : {c d : Conn} → Reach json c → Step json c d → Reach json d
