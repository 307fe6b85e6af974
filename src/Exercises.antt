-- ===== src/Exercises.antt =====
-- The exercises of the course: src/commands.rs and src/events.rs, on the stand-in for LDK's channel
-- manager in src/internal/channel_manager.rs and on `FileStore`, and src/intro/exercises.rs.
pub mod Commands
pub mod CommandsLaws
pub mod Intro
