-- ===== src/Routing.antt =====
-- The package routing of fasthttp-routing/.
pub mod Store
pub mod Chain
pub mod Template
pub mod Url
pub mod Router
pub mod Request
pub mod Param
mod Tests
