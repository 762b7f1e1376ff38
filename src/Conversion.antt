-- ===== src/Conversion.antt =====
-- The conversion between the API versions (api/v1alpha1/conversion.go): each object of v1alpha1 to
-- its counterpart of v1alpha2, the hub, and back. A hub arrives behind an interface, so each method
-- first checks the type of what it is handed. A conversion that fails leaves its destination half
-- written and the webhook drops it: the model returns the error alone.
mod Older
mod Hubs
mod Clusters
mod Machines
mod Templates
mod Items
mod RoundTrip
mod MachineTrips
mod Lists
mod Rejections
unfoldable pub use Older.*
unfoldable pub use Hubs.*
unfoldable pub use Clusters.*
unfoldable pub use Machines.*
unfoldable pub use Templates.*
unfoldable pub use Items.*
pub use RoundTrip.*
pub use MachineTrips.*
pub use Lists.*
pub use Rejections.*
