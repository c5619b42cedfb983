-- ===== src/Rabbit.antt =====
-- pkg/infrastructure/rabbitmq: header tables, publishing, the consumer's retry logic and the
-- declared topology.
pub mod Table
pub mod Publish
pub mod Retry
pub mod Topology
pub mod Connection
pub mod Subscription
pub mod Consumer
mod Tests
