-- ===== src/Feed.antt =====
-- links/policy_feed.py: the feed of policy updates.
pub mod Page
pub mod Order
pub mod Gaps
pub mod Merkle
pub mod Policy
pub mod Manifest
