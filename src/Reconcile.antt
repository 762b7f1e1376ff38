-- ===== src/Reconcile.antt =====
-- The entry points of the two controllers (Reconcile, and the functions that map watched objects
-- to requests), with the client that they build from the identity secret. Server is what they call
-- of controller-runtime and Cluster API; Patched and Credentialed hold proofs.
mod Server
mod Clients
mod Deferred
mod Machines
mod Clusters
mod Watches
mod Patched
mod Credentialed
unfoldable pub use Server.*
unfoldable pub use Clients.*
unfoldable pub use Deferred.*
unfoldable pub use Machines.*
unfoldable pub use Clusters.*
unfoldable pub use Watches.*
pub use Patched.*
pub use Credentialed.*
