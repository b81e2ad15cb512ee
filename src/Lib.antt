-- ===== src/Lib.antt =====
-- A verification library for the pallet lending program: a monorepo whose API (apps/api, NestJS
-- over PostgreSQL) and web app (apps/web) share business rules and schemas (packages/shared).
-- Pallets are lent against a deposit; an order owes its deposit less payments and credits for
-- pallets that come back, and the API writes the rows of that story and caches the figures.
--
-- The parts, and the files that model them:
--   Prelude.antt, Failure.antt: tests, lists, signed integers, maps, and results that may be a throw
--     (error-codes.ts, api-error.ts). A rejected promise that is awaited is a throw.
--   Domain.antt: packages/shared/src/domain/ledger-math.ts. Domain/Order.antt has its data,
--     Domain/Totals.antt `computeOrderTotals`, `returnRefundDue`, `returnMoney` with their helpers,
--     Domain/Undo.antt `orderStateWithoutReturn`, Domain/Credit.antt `checkCreditLimit`,
--     Domain/Receipt.antt the receipt's pages; the others hold proofs about them.
--   Store.antt: the rows of apps/api/prisma/schema.prisma that an order's money goes by.
--   Orders/State.antt: apps/api/src/modules/orders/order-state.ts, the one mapping of stored rows to
--     the formulas' order (`toOrderState`) and the one writer of the order cache (`recomputeOrder`).
--   Orders/Rules.antt: apps/api/src/modules/orders/order-rules.ts, the checks and prices of an order.
--     Orders/Cancel.antt: `cancel` of order-changes.service.ts, over the order's rows, the stock and
--     the pallet credits. Orders/CreditLimit.antt: credit-limit.ts and open-order-totals.ts.
--     Orders/Pricing.antt and Orders/Create.antt: `create` of orders.service.ts, around them all.
--   Reconciliation.antt: R2 of apps/api/src/prisma/reconciliation.ts, the check of every order's cache
--     in batches; Purchases/Check.antt has its R6.
--   OrderNumber.antt: packages/shared/src/format.ts and apps/api/src/modules/orders/order-search.ts,
--     an order number shown and read back.
--   Ledger.antt: apps/api/src/modules/ledger, `MoneyLedger.record`, `PaymentsService.create` and
--     `reverse`. Both end in the same writes (`write_entry`): a ledger row, the recompute, a history
--     row, the answer.
--   Idempotency.antt: apps/api/src/modules/idempotency/idempotency.service.ts, `run` with its two
--     look-ups and its store, around a creating transaction such as that of a payment.
--   Stock.antt: apps/api/src/modules/stock/stock-ledger.ts, the only writer of stock movements.
--   Versioning.antt: apps/api/src/common/utils/versioning.ts, and Purchases.antt:
--     apps/api/src/modules/purchases/purchases.service.ts, batches with their stock movements.
--   PalletCredits.antt: of apps/api/src/modules/returns/pallet-credits.service.ts, the balance and
--     what an order takes of it and gives back.
--   Permissions.antt: packages/shared/src/permissions.ts, the keys and the closure of a set of them,
--     with apps/web/src/lib/permission-selection.ts.
--   Auth.antt: apps/api/src/modules/auth/session.service.ts, sessions of rotating refresh tokens, and
--     Auth/Throttle.antt: login-throttle.service.ts, the counting and locking of failed logins.
--   Returns.antt: apps/api/src/modules/returns/return-rules.ts, a return's checks and its price.
--   ReturnForm.antt: apps/web/src/features/returns, the rows of a return form and their placement on
--     a customer's order lines (allocate.ts, return-rows.ts).
--   Semaphore.antt: apps/api/src/common/utils/semaphore.ts, as steps in any order.
-- How they interact: the API's operations read rows, map them to `Domain`'s order, check by its
-- formulas, append to a ledger that is never changed, and write the cache from the same formulas.
--
-- How code becomes definitions: a transaction is a function from the rows to the rows or a throw,
-- and a throw leaves the rows as they were, as a rolled back transaction does. Row locks make the
-- transactions on one order follow each other, so that they are modelled one after the other; where
-- the order of commits matters (`run`), what others commit meanwhile is an argument. Whole numbers
-- are exact, and the source's refusals of those that a double cannot hold are written out
-- (`assert_safe`, `to_db_money`). Business dates are day numbers, instants milliseconds; today's
-- date, which a time zone library computes, is an argument, as are random values and hashes.
-- Loops are structural recursion, or run on fuel: the two of the receipt's layout on the length of
-- the list, since each round takes at least one element; the closure of permissions on the number of
-- its keys and four for each of the 33 keys, since a round takes a key off the stack, or adds one key
-- to the result and at most three to the stack; the reconciliation's batches on the number of orders,
-- since a full batch passes at least one; decimal digits on the number itself.
--
-- Not modelled: the edit of orders, the writes of returns, the handing back of pallet
-- credits, items, customers, drivers and users, the reports and the dashboard (they use the parts
-- above), and the other rules of the reconciliation, which compare SQL sums; logins and access
-- tokens; pure input and output (controllers, mappers, uploads, printing), the web app's views, and
-- configuration, migrations and deployment; the database's foreign keys and the range of its integers. An answer holds the stored order, not its detail view,
-- and a history row the entry it is about, not the request's context.
pub mod Prelude
pub mod Failure
pub mod Domain
pub mod Idempotency
pub mod Store
pub mod Orders
pub mod OrderNumber
pub mod Ledger
pub mod Reconciliation
pub mod Permissions
pub mod Returns
pub mod ReturnForm
pub mod Auth
pub mod Semaphore
pub mod Stock
pub mod PalletCredits
pub mod Versioning
pub mod Purchases
