-- ===== src/Invoice.antt =====
-- The lines of an invoice request (internal/service/invoice_items.go).
pub mod Items
mod Tests
