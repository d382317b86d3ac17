-- ===== src/Video.antt =====
-- backend_repeat/internal/video: videos, likes and comments.
pub mod Repo
pub mod Effects
pub mod Popularity
pub mod Tally
pub mod Counters
pub mod Likes
pub mod Comments
pub mod Service
pub mod Upload
pub mod Stored
pub mod Uploading
pub mod Handler
pub mod LikeHandler
pub mod CommentHandler
