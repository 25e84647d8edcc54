-- ===== src/Tennis.antt =====
-- The tennis module (tennis/tennis): match state, rules, score strings and simulation.
pub mod State
pub mod Rules
pub mod Score
pub mod Probability
pub mod Simulation
mod Examples
