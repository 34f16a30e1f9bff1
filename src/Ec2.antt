-- ===== src/Ec2.antt =====
-- internal/service/ec2: identifiers of resources.
pub mod Id
pub mod Filters
