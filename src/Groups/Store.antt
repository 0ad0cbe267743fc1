-- ===== src/Groups/Store.antt =====
-- i2pchat/storage/group_store.py: the stored conversation of a group, and the operations on its file.
pub mod Models
pub mod Channel
pub mod Conversation
pub mod Files
pub mod Record
pub mod Kept
pub mod Operations
pub mod Sealing
pub mod Normal
pub mod SeenIds
pub mod Stored
pub mod Built
pub mod Log
pub mod Refinement
pub mod Runs
pub mod Bounds
pub mod Rotation
pub mod Listing
