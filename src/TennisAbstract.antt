-- ===== src/TennisAbstract.antt =====
-- tennis/tennisabstract: court surfaces, dates, form options and form-adjusted rates, and the sides
-- that a backtest backs.
pub mod Dates
pub mod Surfaces
pub mod Names
pub mod Recent
pub mod Seasons
pub mod Form
pub mod Rates
pub mod Columns
pub mod Rows
pub mod PlayerNames
pub mod Odds
pub mod Preload
pub mod Sides
mod Examples
