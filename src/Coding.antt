-- ===== src/Coding.antt =====
-- coding/sphone_coding.c and its header, as built without iLBC: which codings there are and how a
-- pair of them is set up. The G.711 conversions themselves are parameters.
pub mod Channels
pub mod Cells
pub mod Frames
pub mod Payload
pub mod Setup
pub mod Convert
mod Tests
