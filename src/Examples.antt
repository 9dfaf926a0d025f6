-- ===== src/Examples.antt =====
-- Concrete values on which the tests and the instances of the theorems are evaluated.
pub mod Samples
pub mod Wire
pub mod Codec
pub mod Queue
pub mod Egress
pub mod Health
pub mod Client
pub mod Conn
pub mod Istio
pub mod Schema
pub mod Proxy
pub mod Dubbo
pub mod Routines
pub mod Pilot
pub mod Send
pub mod Metrics
pub mod Server
pub mod Registry
