-- ===== src/Redis.antt =====
-- What the services use of Redis and of BullMQ, as interfaces: neither is part of this repository.
pub mod Connection
pub mod Counters
pub mod CounterTable
pub mod Hashes
pub mod HashLaws
pub mod Streams
