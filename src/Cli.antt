-- ===== src/Cli.antt =====
-- src/cli.rs: the commands, the choice of the package of a release, and its installation.
pub mod Commands
pub mod Release
pub mod Packages
pub mod Archive
