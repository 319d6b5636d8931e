-- ===== src/Worker.antt =====
-- The parts of offwork/worker.
pub mod Broker
pub mod Stream
pub mod Result
pub mod Policy
pub mod Backend
pub mod Remote
pub mod Handle
pub mod Loop
