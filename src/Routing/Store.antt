-- ===== src/Routing/Store.antt =====
-- fasthttp-routing/store.go: the radix tree that finds the route of a path.
pub mod Node
pub mod Add
pub mod Get
pub mod Table
pub mod Bounds
pub mod Grow
pub mod Below
pub mod Total
pub mod Capacity
pub mod Least
pub mod Picks
pub mod First
pub mod Timely
pub mod Added
mod Tests
