-- ===== src/CompileServer.antt =====
-- compile_server/: one submission is written to files, compiled, run under limits, and answered.
pub mod Runner
pub mod Job
pub mod Status
