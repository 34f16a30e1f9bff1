-- ===== src/KeyValueTags/Generated/SliceTags.antt =====
-- internal/keyvaluetags/service_tags_gen.go: tags that are slices.
pub mod FromAcm
pub mod FromEcs
pub mod FromOrganizations
