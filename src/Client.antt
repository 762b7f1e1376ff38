-- ===== src/Client.antt =====
-- The OVH client (pkg/ovh/client.go): the retry loop, and one function for each method, grouped as
-- the file groups them. `fmt`'s %q is the text between double quotes, which is what it prints for
-- names without quotes, backslashes or control characters.
pub mod Retry
pub mod Calls
pub mod Instances
pub mod Catalog
pub mod Networks
pub mod Balancers
pub mod Listeners
pub mod Storage
pub mod Regions
pub mod Polling
pub mod Images
pub mod Masking
