-- ===== src/Chain.antt =====
-- The chain: chain/builder.py, chain/client.py and chain/errors.py.
pub mod Errors
pub mod Client
pub mod Builder
pub mod Request
pub mod Nonces
mod Tests
