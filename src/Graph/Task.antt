-- ===== src/Graph/Task.antt =====
-- graph/task.go: one run of a compiled graph. Every section under the task's mutex is a function
-- on the fields of the task, and `Task.Run` composes them into the steps of the main loop and of
-- the goroutines.
pub mod State
pub mod Satisfy
pub mod Execute
pub mod Schedule
pub mod Restore
pub mod Run
pub mod Sums
pub mod Invariant
pub mod Join
pub mod Start
pub mod Safety
