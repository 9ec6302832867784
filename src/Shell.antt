-- ===== src/Shell.antt =====
-- content/shell: the application shell, which runs its prepare tasks before and its clean-up tasks
-- after the main loop.
pub mod Tasks
pub mod Schedule
pub mod Sequence
pub mod Startup
pub mod Lifecycle
mod Tests
