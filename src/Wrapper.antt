-- ===== src/Wrapper.antt =====
-- internal/wrapper/wrapper.go: the process of an agent, its output and its end.
pub mod Process
pub mod Goroutines
pub mod Safety
pub mod Output
mod Tests
