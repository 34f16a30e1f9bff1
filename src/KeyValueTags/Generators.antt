-- ===== src/KeyValueTags/Generators.antt =====
-- internal/keyvaluetags/generators: the functions that the generators print.
pub mod Names
pub mod Services
pub mod Template
pub mod UpdateTable
pub mod ListTables
pub mod TagTables
pub mod KeyValueTables
pub mod Printed
pub mod Members
pub mod RoundTrip
pub mod Sync
pub mod SyncResult
pub mod Closed
pub mod Agrees
