-- ===== src/Tests.antt =====
-- Runs of the model on small inputs, and the theorems applied to them.
pub mod Milli
pub mod Fusing
mod Deciding
pub mod Publishing
mod Reading
mod Recipes
mod Gate
mod Loading
mod Running
mod Passing
mod Gated
mod Triggering
mod Once
