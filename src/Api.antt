-- ===== src/Api.antt =====
-- web/app/src/shared/api.ts, the browser client of the REST API.
pub mod Config
pub mod Request
pub mod Stream
pub mod Status
pub mod Poll
pub mod Key
pub mod Connection
mod Tests
