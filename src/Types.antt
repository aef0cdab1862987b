-- ===== src/Types.antt =====
-- PulseCoAPTypes.h, the sizes and times of PulseCoAPConfig.h at their defaults, and the endpoint
-- of PulseCoAPTransport.h.
pub mod Config
pub mod Codes
pub mod Code
pub mod OptionNumber
pub mod ContentFormat
pub mod Address
pub mod Peers
mod Checks
