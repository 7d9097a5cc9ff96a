-- ===== src/Executor.antt =====
-- The execution of signals: executor/.
pub mod Recovery
pub mod Engine
pub mod Queue
