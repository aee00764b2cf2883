-- ===== src/Tests.antt =====
-- Sample data, runs of the definitions, and the theorems at concrete inputs.
mod Samples
mod Feed
mod Update
mod Signing
mod FeedPolicy
mod Pull
mod Capability
mod Norms
mod Action
mod Drift
mod Admission
mod RateLimit
mod PolicyDiff
mod Checkpoint
mod Server
mod Claims
mod Villages
mod Reconcile
mod TrustAnchors
mod Transparency
mod CryptoPolicy
