-- ===== src/Session.antt =====
-- fasthttp-routing/middleware/session: the sessions of the framework.
pub mod Hash
pub mod Base64
pub mod Data
pub mod Token
pub mod Issued
pub mod Renew
pub mod Renewed
pub mod Manager
pub mod Redis
mod Tests
