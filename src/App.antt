-- ===== src/App.antt =====
-- web/app/src/playground/App.tsx, the playground.
pub mod Lines
pub mod Run
pub mod Tabs
pub mod Session
pub mod Layout
pub mod Output
pub mod Bar
pub mod Drawer
pub mod Draft
pub mod Handlers
pub mod Link
pub mod Rail
pub mod Controls
mod Tests
