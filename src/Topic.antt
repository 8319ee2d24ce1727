-- ===== src/Topic.antt =====
-- topic_filter.go, atomic.go: the tree of topic levels with its subscriptions and retained messages.
pub mod Filter
pub mod Subscriptions
pub mod Level
pub mod Storage
pub mod FindAll
pub mod Paths
pub mod Holds
pub mod Delivery
pub mod Selected
pub mod Reverse
pub mod Upsert
pub mod KeepsOk
pub mod WellFormed
pub mod Changes
pub mod Insert
pub mod Frame
pub mod Remove
pub mod Alike
pub mod Valid
