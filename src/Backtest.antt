-- ===== src/Backtest.antt =====
-- tennis/cmd/backtestbets: the backtest of bets over a list of matches, as single bets or parlays.
pub mod Config
pub mod Eligible
pub mod Stats
pub mod Log
pub mod Stakes
pub mod Singles
pub mod Accounting
pub mod Walk
pub mod Parlay
pub mod Inputs
pub mod Run
mod Examples
