-- ===== src/E2ee.antt =====
-- The package e2ee, and encryption.go of the root package: end-to-end encryption of media frames.
pub mod Gcm
pub mod Rbsp
pub mod Nalu
pub mod Video
pub mod Audio
mod Trailer
pub mod Keys
pub mod FrameCryptor
pub mod DataCryptor
mod Tests
