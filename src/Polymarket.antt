-- ===== src/Polymarket.antt =====
-- polymarket/core: the feeds and what listens to them.
pub mod Channels
pub mod Subscribers
mod Examples
pub mod Events
pub mod Markets
pub mod Discovery
pub mod MarketFeed
pub mod SportsFeed
