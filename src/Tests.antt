-- ===== src/Tests.antt =====
-- Concrete inputs, runs of the definitions on them, and the theorems at them.
mod Data
mod Routing
mod Delivery
mod Lifecycle
mod Wiring
mod Deletion
mod Encoding
mod Frames
mod Handlers
mod Storing
mod Subscribing
mod Connecting
