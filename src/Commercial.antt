-- ===== src/Commercial.antt =====
-- The commercial service of services/commercial/commercialsvc: usage records and invoices.
pub mod Models
pub mod Metering
pub mod Validation
pub mod Job
pub mod Invoice
