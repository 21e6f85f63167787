-- ===== src/Rtp.antt =====
-- src/sphone_rtp.c and include/sphone_rtp.h: the RTP packet header.
pub mod Header
pub mod RoundTrip
pub mod Flags
pub mod Time
pub mod Session
mod Tests
