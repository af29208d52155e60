-- ===== src/Shell.antt =====
-- src/julius_ui.py, the program that draws the phone's screen: the icons of the home screen, and
-- the loop that hands events to the overlays, the screens and the apps.
pub mod Icons
pub mod Settings
pub mod Loop
mod Steps
mod Reach
mod Rows
mod Routing
mod Locking
mod Carried
mod Filled
mod Freezing
mod Tests
