-- ===== src/Wire.antt =====
-- src/wire: the data-link frame, its addresses and the streaming decoder.
mod Tests
pub mod Address
pub mod Frame
pub mod Decoder
