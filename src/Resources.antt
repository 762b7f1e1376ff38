-- ===== src/Resources.antt =====
-- The custom resources of version v1alpha2 (api/v1alpha2), what the controllers read of the objects
-- of Cluster API, and the libraries of Kubernetes and Cluster API as a parameter.
mod Meta
mod Machine
mod Cluster
mod Platform
unfoldable pub use Meta.*
pub use Machine.*
pub use Cluster.*
pub use Platform.*
