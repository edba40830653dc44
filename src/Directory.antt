-- ===== src/Directory.antt =====
-- src/directory_feed.c: the files of a directory as the items of a block.
pub mod Names
pub mod Lines
pub mod Feed
pub mod Watches
mod Tests
