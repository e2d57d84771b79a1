-- ===== src/Lib.antt =====
-- ng_mux: a terminal multiplexer. A daemon (internal/server) keeps sessions; a session is a list of
-- windows; a window is a binary split tree of panes (internal/layout); a pane is a shell on a pty with
-- a terminal emulator. Clients send keys, mouse events and command lines.
--
-- Files, and the code that each models:
--   Layout            internal/layout/layout.go, the types Node, Rect, Orientation and the errors
--   Layout/Geometry   splitAxis, splitRect, compute, Compute
--   Layout/Tree       Panes, firstLeaf, find, and stores through a pointer to a node
--   Layout/Edit       Split, CanSplit, FitsMinimum, Remove, SwapPanes, Neighbor
--   Layout/Resize     walkPath, minSideFrac, clamp, Resize
--   Layout/Arrange    Arrange with evenChain, mainSplit, tiled and stack
--   Server/InputQueue internal/server/input.go
--   Server/Paste      internal/server/paste.go
--   Server/CopyMode   internal/server/copymode.go
--   Server/Command    encodeKeys and namedKey of internal/server/command.go; Command/Tokenize: tokenize,
--                     and JoinArgs and quoteArg of internal/client/client.go
--   Server/MouseEncode internal/server/mouse_encode.go
--   Server/Pane       internal/server/pane.go
--   Server/Window     internal/server/window.go
--   Server/Session    internal/server/session.go, and two handlers of internal/server/commands.go;
--                     Session/PaneMoves: breakPane, joinPane and reapOne
--   Server/Tabs       visibleTabs of internal/server/session.go
--   Server/Commands   internal/server/commands.go, the handlers that act on the current window; hasFlag,
--                     takeFlagValue and firstInt of internal/server/command.go, with strconv.Atoi as a
--                     parameter
--   Server/Client     internal/server/client.go, a client and its mailbox; Client/Writing: writeLoop, with
--                     what the rest of the daemon does to the client
--   Server/Viewers    internal/server/server.go, what the daemon does to the clients that view a session
--   Server/Daemon     internal/server/server.go, the map of sessions and its order; renameSession of
--                     internal/server/command.go, info and shutdown of internal/server/session.go
--   Server/Mouse      internal/server/mouse.go; Mouse/Routing: wheel, drag and release, routeMouse, and
--                     statusClick of internal/server/session.go
--   Config            internal/config/config.go, the configuration file; Config/Shell: parseShell
--   Protocol          internal/protocol/protocol.go, the messages and their frames, Write and Read;
--                     Protocol/Sending: Write under its lock
--   Vterm             internal/vterm/vterm.go; Vterm/Cells: cells made from glyphs; Vterm/History: the
--                     scrollback ring, its limit and ScrollbackView; Vterm/Feed: Write and
--                     incompleteRuneTail; Vterm/Replies: internal/vterm/reply_queue.go
-- Their other child modules hold proofs. Prelude has the shared helpers: lists and maps over the native
-- numbers, integers, byte strings. Examples has concrete inputs.
--
-- How the model relates to the code. A function that changes an object takes it and returns the new
-- one. A pointer to a node of the tree is the path to it; a pointer to a window is its id, which the
-- session never gives twice. A Go map with pane ids as keys is an association list. `none` stands
-- for a panic where the code could index out of range, and for nil. Cell counts and coordinates of
-- the layout are numbers, and what may be negative is an integer; none of them comes near the range
-- of a Go int. float64 is a parameter of the layout, a record of the operations that the code uses;
-- only the sizes after a Split need something of it, that a whole number below 2^53 is halved
-- exactly. Whether the pty of a new pane starts is a parameter of the operations that start one. A
-- critical section under a mutex is one step. The emulator is a parameter of Vterm/Feed. The
-- painting of frames is a parameter of a client's mailbox, encoding/json one of the protocol,
-- strconv.Itoa one of the names of sessions, the functions of strconv, strings and unicode/utf8 one
-- of the configuration, and the text of a selection, which is read off the emulator, one of the
-- mouse.
--
-- Fuel. The search for the number of columns of a tiled layout has as much fuel as there are panes, the
-- loop of visibleTabs as much as there are tabs, the digits of a number as much as its value, and the
-- search for a free session name one turn more than there are sessions: n panes need at most n columns,
-- each turn of visibleTabs but the last takes in a tab, a number n has at most n + 1 digits, and n
-- sessions have at most n names. Other loops are structural.
--
-- Not modelled: the emulator internal/vt10x (a copy of a library), and of its wrapper internal/vterm
-- snapshots; the rendering, the client, the palette of a configuration, the daemon's sockets and
-- processes, and the status bar but for the choice of its tabs and clicks on it.
pub mod Prelude
pub mod Layout
pub mod Protocol
pub mod Vterm
pub mod Config
pub mod Server
pub mod Examples
