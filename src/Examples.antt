-- ===== src/Examples.antt =====
-- Runs of the code on concrete inputs, and the theorems at inputs that meet their hypotheses.
pub mod World
pub mod Policies
pub mod Feasibility
pub mod Routes
pub mod Calls
pub mod Serving
pub mod Configs
pub mod Summary
pub mod Stored
pub mod Api
