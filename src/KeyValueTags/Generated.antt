-- ===== src/KeyValueTags/Generated.antt =====
-- The generated functions of internal/keyvaluetags, and that they are those that the generators make.
pub mod Shapes
pub mod MapTags
pub mod SliceTags
pub mod Update
pub mod List
