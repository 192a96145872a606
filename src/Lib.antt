-- ===== src/Lib.antt =====
-- The settlement and invoicing service: money received is allocated to receivables of contracts,
-- invoices are requested within what is receivable, and every change is reported to other systems
-- through a transactional outbox.
--
-- The parts and where they are modelled:
-- - `Money`: the decimal texts of amounts, quantities and rates (internal/service/service.go,
--   decimal.go). An amount is a number of cents, a quantity, price or rate a number of millionths.
-- - `Invoice`: the lines of an invoice request (internal/service/invoice_items.go).
-- - `Ledger`: the financial tables and the commands on them (internal/service). `Ledger/Tables` and
--   `Ledger/Db` hold the rows, `Ledger/Requests` what callers send and what the service takes from
--   outside. The commands are `create_receipt` (CreateReceipt), `create_manual_plan`,
--   `confirm_plan` and `adjust_plan` (CreateManualPlan, ConfirmPlan, AdjustPlan; service.go,
--   manual_plan.go), `confirm_allocation` (ConfirmAllocation) and `reverse_allocation`
--   (ReverseAllocation); each claims its key (`Ledger/Claims`, `Ledger/Imports`), checks who may
--   write (`Ledger/Access`, `Ledger/Scope`), changes the balances and enqueues the credit events of
--   the CRM (`Ledger/Credit`). `Ledger/Books` relates the balances to the allocations, reversals and
--   reservations. `Ledger/Settings` are the rules of a tenant (role_settings.go, tax_rules.go).
--   `Ledger/Reserved` and `Ledger/Invoiced` are what an invoice may still take of a receivable and
--   what it has taken (invoice_reservation.go, invoice_totals.go), `Ledger/Coverage` is the guard on
--   instalments (plan_coverage.go), `Ledger/Dates` reads business dates (business_date.go).
-- - `Invoicing`: invoice requests on the same tables. `Invoicing/Input` checks what is sent
--   (invoice_input_validation.go), `Invoicing/Submit` reserves (CreateInvoiceRequest),
--   `Invoicing/Review` holds the decisions (ApproveInvoiceRequest, RejectInvoiceRequest,
--   ReviewSpecialInvoice) and the command to the tax system, `Invoicing/Manual` registers a paper
--   invoice (RegisterManualInvoice), `Invoicing/Withdraw` recovers and cancels
--   (RecoverFailedInvoice, CancelInvoiceRequest), and `Invoicing/Callback` applies the results of the
--   tax system (ApplyTaxCallback). `Invoicing/History` is every run of these commands and those of
--   `Ledger`, `Invoicing/Duties` the abstract machine of the states of a request.
-- - `Outbox`: the events that commands leave, and the worker that delivers them
--   (internal/outbox/worker.go, import_gate.go): `Outbox/Store` leases events and writes results
--   back, `Outbox/Gate` withholds reminders of contracts on hold, `Outbox/Worker` is one batch over
--   HTTP and one scan of the destinations.
-- - `Base`: names and lemmas that the others share.
--
-- How the code is read. A transaction is a function from the database to a result; an error rolls
-- back, so it carries no database. Within a transaction the rows that are read are locked, so a
-- query followed by an update sees one state; concurrency is the order of whole transactions
-- (`Outbox/Lifecycle`), and `SKIP LOCKED` is an argument of `acquire`. A unique key is a check on
-- the insertion. Identifiers are numbers and 0 stands for the empty text; generated identifiers,
-- both clocks and today's date are arguments. The JSON of a request and its SHA-256 digest, the
-- role catalogue, the Unicode upper-case table, the CRM publisher, the license service, the token
-- endpoint and the receivers are parameters. Amounts have no upper bound, as in the code, which
-- computes with big rationals; the widths of columns are not modelled. All recursion is
-- structural, so no function runs on fuel except the printer of `Money/RoundTrip`, whose fuel is
-- one more than the number it prints.
--
-- The stored rules of a tenant are a record whose absent fields keep the defaults. Instants of a
-- callback are numbers of milliseconds, and a decimal text of the tax system is what it reads as. Of
-- the content of a command to the tax system only what makes it fail is kept, as of the lines of a
-- returned invoice, which are compared and not stored again.
--
-- Not modelled: contract ingestion and revision, import reconciliation, red flushes (their request,
-- review and callback), the dead letters of the tax system, the invoice archive, dunning, report
-- exports, handover and the credit worker; HTTP handlers, authentication, configuration, clients of
-- other services and the copy of the license library; queries that only render, columns that only
-- report, and the printed percentages of the plan guard.
pub mod Base
pub mod Money
pub mod Invoice
pub mod Ledger
pub mod Invoicing
pub mod Outbox
