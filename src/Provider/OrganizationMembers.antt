-- ===== src/Provider/OrganizationMembers.antt =====
-- The resources that manage the member accounts of an organization.
pub mod Calls
pub mod Sync
pub mod GuardDuty
pub mod SecurityHub
