-- ===== src/Lib.antt =====
-- A verification library for the point-of-sale desktop application (pos-desktop).
--
-- The program is an Electron application: a renderer in which a cashier builds a cart, a main process
-- that keeps the till's SQLite database, and pure modules that both share. A sale starts from the
-- catalog that the server installed; offers are applied to its lines, the cart is priced, the tender
-- is settled against the grand total, and the completed sale is written with one row of an upload
-- queue, which a worker drains to the server.
--
-- Prelude (with Tests, Lists, Results, Int, Number, Text, Sorting and Dict below it) holds what the
-- parts share: Boolean tests on the native numbers, lists, the program's result values with their
-- early returns, integers, JavaScript numbers as they are checked, strings as lists of UTF-16 code
-- units, the stable sort, and maps.
--
-- Catalog models the records of src/shared/contracts/catalog.contract.ts that a sale reads:
-- prices, taxes, products, offers and the contract.
--
-- Pricing models src/shared/pos/posCalculator.ts. Pricing.Types has its types; Pricing.Quantity
-- has `parseQuantityUnchecked`, `parseQuantity`, `milliToQuantity`, `formatQuantity` and
-- `addQuantity`; Pricing.Amounts has `halfUp`, `calculateDiscount` and `calculateTax`;
-- Pricing.Allocation has `allocationFor`, the largest-remainder split of an invoice discount; and
-- Pricing.Cart has `calculateCart`, one function for each of its loops. Decimal digits are produced
-- with the number itself and one as fuel, which is more than its digits.
--
-- Offers models src/shared/pos/offerRule.ts: `offerDiscount`, `bestOffer` and `applyOffers`. Its
-- instants are numbers, as `Date.parse` and `getTime` give them. Its own `milli` and `halfUp` are
-- the same expression and arithmetic as the calculator's, whose definitions stand for both.
--
-- Payments models src/shared/pos/paymentCalculator.ts: the rows in order, each with all its checks,
-- then the sums. Amounts entered are any JavaScript number; the grand total is a natural number, as
-- `calculateCart` returns it.
--
-- Refunds models src/shared/pos/refundCalculator.ts. The product, the sum and the floored
-- quotient of whole doubles are a parameter, exact up to 2^53. Refunds.Reading has `toMilli`.
--
-- Sync models the upload queue. Sync.States is src/shared/constants/syncQueueStates.ts. Sync.Queue
-- has the tables `sync_queue` and `local_invoices`, as far as the queue uses them, the SQL updates
-- and the first operations of src/main/repositories/syncQueue.repository.ts; Sync.Queue.Uploads has
-- the claim and the two recovery loops, Sync.Queue.Outcomes the outcomes, the re-offer and the
-- counts. A transaction is a function from the tables to a fault or the new tables, since a throw
-- rolls it back; the primary key, the unique idempotency key, the unique upload of an invoice, the
-- dependency's reference and the CHECK on synced invoices are written out. Timestamps are numbers: the texts of `toISOString` are ordered as their
-- instants. `local_uuid` is the primary key of the invoices, so the join selects a row at most once.
-- Sync.Queue.Steps runs a sequence of calls, of which a failed one changes nothing.
--
-- Access models src/main/services/commercialAccess.service.ts, with the device table of
-- src/shared/constants/deviceStatuses.ts and the policy of
-- src/shared/contracts/connectivityPolicy.contract.ts: Access.License has `licenseState` and
-- `coveredRenewal`, Access.Evaluation has `evaluate`, and what its readers return is one record.
-- Access.Ordering, Access.Relaxing and Access.Stored model `admitAccessAnswer`, `bootstrapRelaxes` and
-- the stored row of src/main/services/accessOrdering.ts.
--
-- CartStore models src/renderer/src/modules/pos/cart.store.ts, the draft that the register edits: its
-- state, `candidate` and `commit`; CartStore.Editing has the edits of the live draft,
-- CartStore.Catalogs `setContract` and `rebuildFromCatalog`, CartStore.Parking the held drafts, the
-- lock and the context tokens, and CartStore.Actions one type of calls with a history of them. A call
-- returns the new state with what the method returns.
--
-- Stock models the stock allocations. Stock.Split has `splitAllocations` of
-- src/main/services/stockAllocation.service.ts; Stock.Tables and Stock.Spendable have the tables
-- of src/main/repositories/stockAllocation.repository.ts, what a grant may spend and the
-- consumptions, and the service over them; Stock.Ingest, Stock.Snapshots and Stock.Lifecycle have
-- the snapshot of a bootstrap, the top-up and the answers of a recovery, as calls that fail as a
-- whole (`upsertGrant` with a context is the write inside a snapshot, its only caller); Stock.Journal has the reads of the consumptions; Stock.Deficit and Stock.Requests have
-- src/main/services/allocationDeficit.ts with the canonical JSON of
-- src/main/services/localSale.fingerprint.ts, over a hash that is a parameter. Instants and
-- the stored hashes are values that are only compared.
--
-- ServerTime models src/main/sync/serverTimeEstimator.ts: the samples, the listeners and the bound.
-- The arithmetic of doubles is a parameter, and readings are numbers of any small unit.
--
-- Preparation models src/main/services/preparationDependencies.ts: the reasons that block a candidate
-- for preparation and the partition by them.
--
-- Numbers that the code computes as bigint are natural numbers, with the checks of the result
-- against `Number.MAX_SAFE_INTEGER` and the program's own limits; a subtraction is written with the
-- comparison that the code makes before it. Amounts and quantities that it computes or adds as doubles
-- (those of an offer and of the demands for stock) are natural numbers as well, which differ above
-- 2^53 only. These are parameters: the collation of
-- `localeCompare`, by which equal remainders are ordered, `Date.parse`,
-- `JSON.parse`, `Number` of a text, SHA-256, the arithmetic of doubles, and the callbacks of the
-- queue (`accept` and `isExpired`), which are pure functions of what they are given.
--
-- Not modelled: the HTTP, Electron, database and printing libraries and the code that only wires
-- them; zod schemas; Vue views; and, for now, the workers, the commit of a sale, the sending of
-- allocation requests and the hashes of the allocation journal.
pub mod Prelude
pub mod Catalog
pub mod Pricing
pub mod Offers
pub mod Payments
pub mod Refunds
pub mod Sync
pub mod Access
pub mod CartStore
pub mod Stock
pub mod ServerTime
pub mod Preparation
