-- ===== src/Ci.antt =====
-- The policies of tool/ci, which decide from JSON documents what may be deployed.
pub mod Results
pub mod Json
pub mod Patterns
pub mod TextSets
pub mod Exceptions
pub mod Images
pub mod Deploy
