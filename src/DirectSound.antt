-- ===== src/DirectSound.antt =====
-- audio/sphone_audio_directsound_record.c and audio/sphone_audio_directsound_play.c: recording and playing on the
-- circular buffers of DirectSound, which is a parameter. Allocations succeed. A `size_t` and a pointer have 32 bits.
pub mod Record
pub mod Capture
pub mod Packets
pub mod Polls
pub mod Play
pub mod Regions
pub mod Written
mod Tests
