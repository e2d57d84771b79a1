-- ===== src/Protocol.antt =====
-- internal/protocol/protocol.go: messages on the wire between client and daemon. The JSON of a
-- message is the work of encoding/json, and enters as a parameter.
pub mod Framing
pub mod Sending
use ng_mux.Prelude.{
  ℕ, zero, suc, ◌+◌, ◌-◌, ◌*◌, ◌/◌, ◌%◌, ◌^◌, Bool, true, false, List, [], ◌∷◌, ◌++◌, Option, none,
  some, if◌then◌else◌, ltb, length, Bytes,
}
use ng_mux.Prelude.Int.{ℤ}

pub record SessionInfo : Type 0 where
  pub name : Bytes
  pub windows : ℕ
  pub panes : ℕ
  pub attached : Bool

pub record Message : Type 0 where
  pub kind : Bytes
  pub cols : ℤ
  pub rows : ℤ
  pub n : ℤ
  pub mx : ℤ
  pub my : ℤ
  pub mb : ℤ
  pub body : Bytes
  pub name : Bytes
  pub sessions : List SessionInfo

-- json.Marshal and json.Unmarshal, which may fail.
pub record Json : Type 0 where
  pub marshal : Message → Option Bytes
  pub unmarshal : Bytes → Option Message

abbrev pub max_frame : ℕ
max_frame = 8 * 2 ^ 20

-- PutUint32 and Uint32 of binary.BigEndian.
unfoldable pub put_u32 : ℕ → Bytes
put_u32 n = n / 2 ^ 24 % 256 ∷ n / 2 ^ 16 % 256 ∷ n / 2 ^ 8 % 256 ∷ n % 256 ∷ []

unfoldable pub get_u32 : Bytes → ℕ
get_u32 [] = 0
get_u32 (b ∷ bs) = b * 2 ^ (8 * length bs) + get_u32 bs

pub data WriteResult : Type 0 where
  written : Bytes → WriteResult
  marshal_failed : WriteResult
  too_large : ℕ → WriteResult

unfoldable pub write_payload : Option Bytes → WriteResult
write_payload none = marshal_failed
write_payload (some payload) =
    if ltb max_frame (length payload)
    then too_large (length payload)
    else written (put_u32 (length payload) ++ payload)

-- Conn.Write up to the lock: the one buffer that it hands to the stream, or the error.
unfoldable pub write : Json → Message → WriteResult
write json m = write_payload (json.marshal m)

-- io.ReadFull: all the bytes asked for and what is left of the stream; io.EOF, where there is no
-- byte at all; or io.ErrUnexpectedEOF, where there are some but not enough.
pub data ReadFull : Type 0 where
  full : Bytes → Bytes → ReadFull
  eof unexpected_eof : ReadFull

-- The same with the byte before.
abbrev pub after_byte : ℕ → ReadFull → ReadFull
after_byte b (full taken rest) = full (b ∷ taken) rest
after_byte b eof = unexpected_eof
after_byte b unexpected_eof = unexpected_eof

-- io.ReadFull of `n` bytes, of a stream that holds these bytes and then ends. No bytes can be read
-- at the end, too.
unfoldable pub read_full : ℕ → Bytes → ReadFull
read_full zero bs = full [] bs
read_full (suc n) [] = eof
read_full (suc n) (b ∷ bs) = after_byte b (read_full n bs)

-- `ended` and `cut_off` are the errors io.EOF and io.ErrUnexpectedEOF, passed on as they are.
pub data ReadResult : Type 0 where
  received : Message → Bytes → ReadResult
  ended cut_off : ReadResult
  frame_too_large : ℕ → ReadResult
  unmarshal_failed : ReadResult

unfoldable pub decode : Json → ReadFull → ReadResult
decode json eof = ended
decode json unexpected_eof = cut_off
decode json (full payload rest) = elim (json.unmarshal payload) [
  | none ↦ unmarshal_failed
  | some m ↦ received m rest
]

unfoldable pub read_body : Json → ReadFull → ReadResult
read_body json eof = ended
read_body json unexpected_eof = cut_off
read_body json (full header rest) =
    if ltb max_frame (get_u32 header)
    then frame_too_large (get_u32 header)
    else decode json (read_full (get_u32 header) rest)

-- Conn.Read: the message and what is left of the stream.
unfoldable pub read : Json → Bytes → ReadResult
read json bs = read_body json (read_full 4 bs)
