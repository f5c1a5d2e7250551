-- ===== src/Negotiation.antt =====
-- The negotiation of content in fasthttp-routing/helpers.go.
pub mod Sort
pub mod Header
pub mod Offer
pub mod Splice
mod Tests
pub mod Fuel
pub mod Ranges
