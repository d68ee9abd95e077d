-- ===== src/Datatrack.antt =====
-- The package internal/datatrack: frames of a data track cut into packets and put together again.
pub mod Handle
pub mod Clock
pub mod Packet
pub mod Packetizer
pub mod Depacketizer
pub mod Stream
pub mod Schema
pub mod Local
pub mod Remote
pub mod Proto
mod Tests
