-- ===== src/Vterm.antt =====
-- internal/vterm: what the server sees of the terminal emulator of a pane.
pub mod Cells
pub mod History
pub mod Replies
pub mod Feed
