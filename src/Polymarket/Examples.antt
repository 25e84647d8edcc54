-- ===== src/Polymarket/Examples.antt =====
-- Runs of the modules of polymarket/, and the theorems at concrete inputs.
mod Feeds
mod Traders
mod Games
