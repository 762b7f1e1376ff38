-- ===== src/Cloud.antt =====
-- What the OVH API is sent and what it answers (pkg/ovh/types.go), and the API itself as a
-- parameter (the package github.com/ovh/go-ovh).
mod Compute
mod Network
mod Balancer
mod Transport
pub use Compute.*
pub use Network.*
pub use Balancer.*
pub use Transport.*
