-- ===== src/Examples.antt =====
-- Runs of the definitions, and the theorems at concrete inputs.
mod Services
mod Tags
mod Organizations
mod Vpc
mod Ids
mod Controls
mod Diff
mod Names
mod Batches
mod Generated
mod Mutexes
mod SetTags
