-- ===== src/Rtcp.antt =====
-- RTCP, the control protocol beside RTP: src/sphone_rtcp.c, src/sphone_rtcp_send.c and
-- src/sphone_rtcp_rcv.c.
pub mod Packets
pub mod RoundTrip
pub mod Header
pub mod Time
pub mod Send
pub mod Timers
pub mod Receive
pub mod Taken
pub mod Exchange
mod Tests
