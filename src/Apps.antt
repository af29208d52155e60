-- ===== src/Apps.antt =====
-- The apps of src/apps: one module for each, with its `handle_input` and the methods it calls.
pub mod Todo
pub mod Notes
pub mod Passwords
pub mod TextEditor
pub mod Timer
pub mod Table
pub mod ProcessKiller
pub mod Firewall
pub mod WakeOnLan
pub mod FileManager
pub mod LogViewer
