-- ===== src/KeyValueTags/Generated/List.antt =====
-- internal/keyvaluetags/list_tags_gen.go.
pub mod FromAccessanalyzer
pub mod FromDatabasemigrationservice
pub mod FromImagebuilder
pub mod FromResourcegroups
