-- ===== src/Backtest/Parlay.antt =====
-- tennis/cmd/backtestbets/parlay.go: parlays over consecutive matches. The matches from the anchor
-- on stand for the index of the anchor in the list.
pub mod Legs
pub mod Window
pub mod Place
pub mod Track
pub mod Sound
pub mod Books
