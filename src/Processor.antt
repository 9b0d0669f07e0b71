-- ===== src/Processor.antt =====
-- apps/message-processor/internal/processor: the service that answers the CALLs of charge points.
pub mod Audit
pub mod Broker
pub mod CoreClient
pub mod Handler
pub mod Subscription
