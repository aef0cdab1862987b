-- ===== src/Exchange.antt =====
-- A client and a server of the library that talk to each other: src/PulseCoAPClient.cpp on one end
-- and src/PulseCoAPServer.cpp on the other.
pub mod Requests
mod Checks
