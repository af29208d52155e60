-- ===== src/System.antt =====
-- The services of src/system: one module for each.
pub mod Ai
pub mod AppSwitcher
pub mod Bridge
pub mod Bytes
pub mod Cloud
pub mod ControlCenter
pub mod Drop
pub mod Notifications
pub mod Spotlight
pub mod StateFiles
pub mod Status
pub mod Stream
