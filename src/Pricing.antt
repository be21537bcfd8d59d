-- ===== src/Pricing.antt =====
-- The pure pricing function (src/shared/pos/posCalculator.ts) by its parts.
pub mod Types
pub mod Quantity
pub mod Amounts
pub mod Allocation
pub mod Cart
mod Tests
