-- ===== src/Cli.antt =====
-- src/main.rs: the commands.
pub mod Error
pub mod Names
pub mod Remote
pub mod Process
pub mod Settings
pub mod Start
pub mod Spawn
pub mod Json
pub mod Address
pub mod Incus
pub mod Run
pub mod Message
pub mod Delete
pub mod Tests
