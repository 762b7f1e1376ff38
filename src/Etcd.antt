-- ===== src/Etcd.antt =====
-- RemoveEtcdMember (util/etcd.go): a command in an etcd pod that is left removes the member of a
-- deleted node. Pods and Commands model it; Healthy, Trail, Extension and Numbers
-- hold proofs.
mod Pods
mod Commands
mod Healthy
mod Trail
mod Extension
mod Numbers
unfoldable pub use Pods.*
unfoldable pub use Commands.*
pub use Healthy.*
pub use Trail.*
pub use Extension.*
pub use Numbers.*
