-- ===== src/Controller.antt =====
-- internal/controller: the two reconcilers. The Kubernetes API and the helpers of controller-runtime
-- and apimachinery are parameters, in Kube.
pub mod Kube
pub mod Notes
pub mod Claim
pub mod Trace
pub mod Lawful
pub mod Protocol
pub mod Settled
pub mod Secrets
pub mod Reports
pub mod Outcome
pub mod Success
pub mod Access
