-- ===== src/Auth.antt =====
-- src/auth: the identities of devices and the encryption of packets.
pub mod Crypto
pub mod Window
pub mod PacketCipher
mod Members
mod Tests
