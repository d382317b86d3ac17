-- ===== src/Feed.antt =====
-- backend_repeat/internal/feed: the feed service.
pub mod Merge
pub mod Repo
pub mod Listing
pub mod Sorting
pub mod Cursor
pub mod Pages
pub mod PopularPages
pub mod Lookup
pub mod Latest
pub mod Popularity
pub mod Following
pub mod Handler
pub mod Bounds
pub mod Pulling
pub mod Errors
pub mod Refusals
mod Sample
mod Tests
