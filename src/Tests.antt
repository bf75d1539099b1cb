-- ===== src/Tests.antt =====
-- Runs of the model at concrete data, and each theorem at an input that meets its hypotheses.
pub mod Provisioning
mod Cosi
mod Minio
mod Aws
mod Resolver
pub mod Controller
mod Success
mod Runs
mod Refinement
