-- ===== src/KeyValueTags/Generated/Update.antt =====
-- internal/keyvaluetags/update_tags_gen.go.
pub mod FromAccessanalyzer
pub mod FromAthena
pub mod FromCodeartifact
pub mod FromDataexchange
pub mod FromEc2
pub mod FromEmr
pub mod FromIot
pub mod FromLicensemanager
pub mod FromNetworkfirewall
pub mod FromResourcegroups
pub mod FromSigner
pub mod FromWaf
