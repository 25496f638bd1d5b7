-- ===== src/Domain.antt =====
-- internal/domain/recording: the task state machine, the event, the file name rules and the summary.
pub mod Status
pub mod Task
pub mod Event
pub mod Json
pub mod Summary
pub mod Filename
pub mod Machine
