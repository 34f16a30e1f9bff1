-- ===== src/KeyValueTags/Generated/MapTags.antt =====
-- internal/keyvaluetags/service_tags_gen.go: tags that are maps.
pub mod FromAccessanalyzer
pub mod FromMwaa
