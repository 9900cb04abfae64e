-- ===== src/Routing.antt =====
-- internal/routing: the decision engine and the policy registry.
pub mod Hash
pub mod Feasible
pub mod Predict
pub mod Select
pub mod Route
pub mod Registry
pub mod Body
pub mod Parse
