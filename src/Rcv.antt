-- ===== src/Rcv.antt =====
-- src/sphone_rcv.c: a packet's way from the socket to the play buffer.
pub mod Sequence
pub mod Classify
pub mod Receive
pub mod Outcomes
pub mod Counters
pub mod Refusals
mod Tests
