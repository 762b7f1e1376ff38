-- ===== src/Tests.antt =====
-- The theorems applied at concrete inputs: a small cloud, a small Kubernetes and a cluster "demo".
mod Fixtures
mod Clouds
mod Retries
mod Machines
mod Objects
mod Clusters
mod Texts
mod Versions
mod Etcds
mod Lives
mod Managers
mod Balancers
