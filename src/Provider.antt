-- ===== src/Provider.antt =====
-- internal/provider: the resources, and the slices that they share.
pub mod Slices
pub mod OrganizationMembers
pub mod DefaultVpcDeletion
pub mod ControlDisablement
pub mod TagsDiff
pub mod TagSpecifications
