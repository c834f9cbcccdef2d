-- ===== src/Operation.antt =====
-- src/operation: payload codecs of the application layer.
mod Tests
pub mod Codec
pub mod Text
pub mod Exchange
