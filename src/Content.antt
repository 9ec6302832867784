-- ===== src/Content.antt =====
-- content: the plain application, its configuration files, and the table of configuration watchers.
pub mod Bootup
pub mod Config
mod Tests
