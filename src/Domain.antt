-- ===== src/Domain.antt =====
-- packages/shared/src/domain/ledger-math.ts: the business rules that the API and the web app share.
-- Quantities and money are whole numbers of the source, `ℕ` where the schemas make them
-- non-negative and `ℤ` where a difference is taken.
mod Order
mod Totals
pub mod Lines
pub mod Money
pub mod Split
pub mod Undo
pub mod Credit
pub mod Entry
pub mod Receipt
mod Tests
pub use Order.*
unfoldable pub use Totals.*
