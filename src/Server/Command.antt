-- ===== src/Server/Command.antt =====
-- encodeKeys and namedKey of internal/server/command.go. Texts are byte strings.
pub mod Tokenize
pub mod RoundTrip
use ng_mux.Prelude.{
  ℕ, ◌+◌, ◌-◌, Bool, true, false, ◌&&◌, ◌||◌, List, [], ◌∷◌, ◌++◌, Option, none, some, Bytes,
  bytes_eq, codes, if◌then◌else◌, ◌==◌, leb,
}
use ng_mux.Prelude.Int.{ℤ, pos, negsuc}

-- The C-x form at the end of namedKey.
unfoldable pub control_key : Bytes → Option Bytes
control_key (k ∷ d ∷ c ∷ []) =
    if (k == b'C' || k == b'c') && d == b'-'
    then (if leb b'a' c && leb c b'z'
        then some ((c - b'a' + 1) ∷ [])
        else if leb b'A' c && leb c b'Z'
        then some ((c - b'A' + 1) ∷ [])
        else none)
    else none
control_key _ = none

-- namedKey
unfoldable pub named_key : Bytes → Option Bytes
named_key s =
    if bytes_eq s (codes "Enter") || bytes_eq s (codes "C-m") || bytes_eq s (codes "Return")
    then some (b'\r' ∷ [])
    else if bytes_eq s (codes "Space")
    then some (b' ' ∷ [])
    else if bytes_eq s (codes "Tab") || bytes_eq s (codes "C-i")
    then some (b'\t' ∷ [])
    else if bytes_eq s (codes "Escape") || bytes_eq s (codes "Esc")
    then some (0x1b ∷ [])
    else if bytes_eq s (codes "BSpace") || bytes_eq s (codes "BackSpace") || bytes_eq s (codes "DC")
    then some (0x7f ∷ [])
    else if bytes_eq s (codes "Up")
    then some (0x1b ∷ codes "[A")
    else if bytes_eq s (codes "Down")
    then some (0x1b ∷ codes "[B")
    else if bytes_eq s (codes "Right")
    then some (0x1b ∷ codes "[C")
    else if bytes_eq s (codes "Left")
    then some (0x1b ∷ codes "[D")
    else if bytes_eq s (codes "Home")
    then some (0x1b ∷ codes "[H")
    else if bytes_eq s (codes "End")
    then some (0x1b ∷ codes "[F")
    else if bytes_eq s (codes "PageUp") || bytes_eq s (codes "PPage")
    then some (0x1b ∷ codes "[5~")
    else if bytes_eq s (codes "PageDown") || bytes_eq s (codes "NPage")
    then some (0x1b ∷ codes "[6~")
    else control_key s

-- encodeKeys
unfoldable pub encode_keys : List Bytes → Bytes
encode_keys [] = []
encode_keys (a ∷ args) = elim (named_key a) [
  | some k ↦ k ++ encode_keys args
  | none ↦ a ++ encode_keys args
]
