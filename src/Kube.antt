-- ===== src/Kube.antt =====
-- internal/kube: the Kubernetes backends. The API server and client-go are arguments.
pub mod Retry
pub mod Scaler
pub mod Apply
pub mod AuthorizedKeys
