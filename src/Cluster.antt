-- ===== src/Cluster.antt =====
-- The OVHCluster controller (internal/controller/ovhcluster_controller.go), but for the load
-- balancer, the floating IP and the deletion.
pub mod Scope
pub mod Credentials
pub mod Network
pub mod Groups
pub mod GroupsRecorded
pub mod Domains
pub mod NetworkReady
pub mod Port
pub mod Gateways
pub mod FloatingIps
pub mod Balancer
pub mod Normal
pub mod Delete
pub mod Deletion
pub mod Frames
pub mod Ports
pub mod Ready
pub mod Endpoint
pub mod Settled
pub mod Orphans
