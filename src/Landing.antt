-- ===== src/Landing.antt =====
-- The landing page, web/app/src/landing: the parts of it that compute.
pub mod Teaser
pub mod Languages
pub mod Hero
pub mod Layers
pub mod Links
pub mod Nav
pub mod Sections
pub mod Packet
mod Tests
