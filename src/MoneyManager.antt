-- ===== src/MoneyManager.antt =====
-- moneymanager: the service that sizes and signs orders.
pub mod Decimals
pub mod Risk
pub mod Server
mod Examples
