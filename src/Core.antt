-- ===== src/Core.antt =====
-- core/types.py: the value types that the other parts share.
pub mod Token
pub mod Amount
