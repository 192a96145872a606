-- ===== src/Invoicing.antt =====
-- Invoice requests from their submission to the invoice (internal/service/invoice_*.go,
-- tax_callback.go).
pub mod Input
pub mod Submit
pub mod Review
pub mod Manual
pub mod Withdraw
pub mod Events
pub mod Callback
pub mod Answered
pub mod Repeated
pub mod Shares
pub mod Added
pub mod Available
pub mod Invoiced
pub mod Sound
pub mod Decided
pub mod Closed
pub mod History
pub mod Duties
pub mod Separated
pub mod Recalled
pub mod Withdrawn
pub mod Decisions
pub mod Approved
pub mod Reviewed
pub mod Cancelled
pub mod Issued
pub mod Threshold
mod Tests
mod RunTests
mod RuleTests
