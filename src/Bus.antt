-- ===== src/Bus.antt =====
-- bus/: the frame codec and the stream decoder.
pub mod Crc
pub mod Frame
pub mod Decoder
mod Tests
