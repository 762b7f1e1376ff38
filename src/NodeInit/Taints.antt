-- ===== src/NodeInit/Taints.antt =====
-- What removeTaint of util/node_init.go keeps, and what initialising a node does to the cluster.
use cluster_api_provider_ovh.Prelude.{if◌then◌else◌, ℕ, Bool, List, [], ◌∷◌, ◌+◌}
use cluster_api_provider_ovh.Resources.{Taint}

-- How many taints of a list satisfy a test.
abbrev pub count : (Taint → Bool) → List Taint → ℕ
count p [] = 0
count p (t ∷ ts) = if p t then 1 + count p ts else count p ts
