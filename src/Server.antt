-- ===== src/Server.antt =====
-- internal/server: the daemon.
pub mod CopyMode
pub mod InputQueue
pub mod Paste
pub mod Command
pub mod MouseEncode
pub mod Pane
pub mod Window
pub mod Session
pub mod Tabs
pub mod Commands
pub mod Client
pub mod Mouse
pub mod Viewers
pub mod Daemon
