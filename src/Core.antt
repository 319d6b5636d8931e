-- ===== src/Core.antt =====
-- offwork/core: identities, signatures and the signed envelope.
pub mod Bytes
pub mod Ed25519
pub mod Nonces
pub mod Clients
pub mod Json
pub mod Task
pub mod Values
pub mod Envelope
pub mod Pairing
pub mod Keys
