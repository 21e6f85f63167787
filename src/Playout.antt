-- ===== src/Playout.antt =====
-- src/sphone_playout.c and src/sphone_playout_shbuf.c: where a decoded packet goes in the audio
-- device's play buffer.
pub mod Device
pub mod Shbuf
pub mod Dispatch
pub mod Samples
mod Tests
