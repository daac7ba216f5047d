-- ===== src/Amqp.antt =====
-- The package amqp: what goes over the wire, and the records that the server keeps.
pub mod Table
pub mod Types
