-- ===== src/Agent.antt =====
-- agent.go: the agent that asks a model, runs the tools it calls for, and asks again.
pub mod Tools
pub mod Loop
pub mod Calls
pub mod Answered
pub mod New
pub mod Commit
mod Witness
