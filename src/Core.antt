-- ===== src/Core.antt =====
-- apps/ocpp-core/internal: the service that owns transactions, commands and the message log.
pub mod Store
pub mod Transactions
pub mod Events
pub mod MessageLogs
pub mod Broker
pub mod CanonLog
pub mod Api
