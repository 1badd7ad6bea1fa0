-- ===== src/Billing.antt =====
-- The billing controller (pkg/controller/billing): a queue of billing events per BillingService,
-- filled from the differences between spec and history and delivered to Odoo one event at a time.
pub mod Types
pub mod Events
pub mod Prune
pub mod Client
pub mod Queue
pub mod Resend
pub mod Conditions
pub mod Lifecycle
pub mod Reconcile
mod Examples
