-- ===== src/Orders.antt =====
-- apps/api/src/modules/orders: the order as the formulas read it, the order cache, the
-- rules of an order, its credit limit, its hand-over and its cancelling.
pub mod State
pub mod Rules
pub mod Activity
pub mod CreditLimit
pub mod WithinLimit
pub mod Pricing
pub mod Create
pub mod NewOrder
pub mod Priced
pub mod HandedOver
pub mod Created
pub mod Cancel
pub mod Cleared
pub mod Cancelled
mod CancelTests
mod CreditTests
mod CreateTests
mod Tests
