-- ===== src/Ledger.antt =====
-- The financial tables and the commands that change them (internal/service).
pub mod Tables
pub mod InvoiceTables
pub mod Invoiced
pub mod Reserved
pub mod Access
pub mod Dates
pub mod Db
pub mod Requests
pub mod Claims
pub mod Imports
pub mod Scope
pub mod Receipts
pub mod Credit
pub mod Allocations
pub mod Reversals
pub mod Books
pub mod Replays
pub mod Coverage
pub mod Plans
pub mod Settings
pub mod Samples
mod Tests
mod PlanTests
