-- ===== src/Startup.antt =====
-- How the two processes start: cmd/main.go and cmd/worker/main.go, with config, db and the
-- connection to RabbitMQ.
pub mod Config
pub mod Connection
pub mod Api
pub mod Workers
pub mod Broker
pub mod Bound
pub mod Producers
mod Tests
