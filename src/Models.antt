-- ===== src/Models.antt =====
-- The models: the catalog of the places that use a model and the registry of providers, presets and
-- bindings, of src/acabot/runtime/model.
pub mod Targets
pub mod Auth
pub mod Kinds
pub mod Registry
pub mod Checks
pub mod Prefix
pub mod Impacts
pub mod Requests
pub mod Manager
pub mod Changes
pub mod Sound
pub mod Integrity
pub mod Reported
pub mod Cascade
pub mod Resolved
pub mod Answered
pub mod Raised
mod Tests
