-- ===== src/Panel.antt =====
-- web/app/src/playground/TestsPanel.tsx, the test-case panel.
pub mod Csv
pub mod Diff
pub mod Compare
pub mod Store
pub mod Cases
pub mod Run
pub mod Reload
pub mod Import
pub mod Row
mod Tests
