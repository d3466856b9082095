-- ===== src/Money.antt =====
-- Amounts of one asset: packages/shared/src/money/.
pub mod Decimal
pub mod Rounding
pub mod Amount
pub mod Natural
pub mod Text
pub mod ExchangeRate
pub mod Pricing
