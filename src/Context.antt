-- ===== src/Context.antt =====
-- context/window, context/summary, internal/counter and session.go.
pub mod Counter
pub mod Session
pub mod Window
pub mod Summary
mod Witness
