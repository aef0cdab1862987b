-- ===== src/Transport.antt =====
-- The adapters to network stacks. A function of a stack is an argument of the operations that call
-- it.
pub mod LwIp
pub mod Posix
pub mod ArduinoUdp
mod Checks
