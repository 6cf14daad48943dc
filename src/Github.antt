-- ===== src/Github.antt =====
-- src/symphony/github.py: the client of the `gh` command line.
pub mod Api
pub mod Reads
pub mod Labels
pub mod Comments
pub mod Pulls
pub mod Samples
pub mod Tests
