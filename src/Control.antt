-- ===== src/Control.antt =====
-- oj_server/oj_control.hpp: the three controllers, above the models, the view and the machines.
pub mod Questions
pub mod Users
pub mod Progress
pub mod Login
pub mod Attempts
pub mod Counting
pub mod Sorting
pub mod Judging
pub mod Verdicts
pub mod Tests
