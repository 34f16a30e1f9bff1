-- ===== src/KeyValueTags.antt =====
-- internal/keyvaluetags: resource tags and the operations on them.
pub mod Data
pub mod Copy
pub mod Filter
pub mod Access
pub mod Config
pub mod New
pub mod Equality
pub mod Lookups
pub mod UpdateTags
pub mod BucketTags
pub mod ControlBucketTags
pub mod Batches
pub mod Requests
pub mod Customizations
pub mod Generated
pub mod Generators
pub mod SetTags
