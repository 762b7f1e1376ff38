-- ===== src/Machine/Members.antt =====
-- The members of the load balancer pools that stand for a control plane machine
-- (ensureLBPoolMember, ensureRKE2RegisterPoolMember and removeLBPoolMember).
use cluster_api_provider_ovh.Prelude.{
  ℕ, ◌++◌, Bool, not, ◌&&◌, Option, none, some, List, [], Text, codes, is_empty, find?, nat_eq,
  ◌==◌, plain, Outcome, ok, err, Exec, pure, fail, attempt, or_wrap, ◌>>=◌, ◌>>◌, if◌then◌else◌,
}
use cluster_api_provider_ovh.Cloud.{IpAddress, Instance, Member, Pool}
use cluster_api_provider_ovh.Client.Listeners.{
  list_pool_members, add_pool_member, find_pool_by_name, remove_pool_member,
}
use cluster_api_provider_ovh.Machine.Scope.{
  MachineScope, MachineState, on_world, set_status, best_effort,
}

abbrev pub api_port : ℕ
api_port = 6443

abbrev pub register_port : ℕ
register_port = 9345

abbrev pub is_private_ipv4 : IpAddress → Bool
is_private_ipv4 a = nat_eq a.version 4 && a.kind == codes "private"

ip_or_empty : Option IpAddress → Text
ip_or_empty none = []
ip_or_empty (some a) = a.ip

-- The first private IPv4 address, or the empty text.
unfoldable pub private_ip : Instance → Text
unfolding ip_or_empty
private_ip i = ip_or_empty (find? is_private_ipv4 i.ip_addresses)

-- The first listed member at this address and port; a failed listing shows none.
unfoldable pub registered : Text → ℕ → Outcome (List Member) → Option Member
registered address port (err e) = none
registered address port (ok members) =
    find? (λ m. m.address == address && nat_eq m.protocol_port port) members

module _ {W : Type 0} (scope : MachineScope W) where
  unfoldable pub pool_id : Text
  pool_id = scope.ovh_cluster.status.pool_id

  -- `AddPoolMember` with this machine's name and weight 1.
  unfoldable pub add_member : Text → Text → ℕ → Exec (MachineState W) Member
  add_member pool address port = on_world (
      add_pool_member scope.ovh_client pool (record {
        name = scope.machine_name;
        address = address;
        protocol_port = port;
        subnet_id = [];
        weight = 1;
      }))

  record_register_member : Member → Exec (MachineState W) (Unit {0})
  record_register_member m = set_status λ st. record st { register_pool_member_id = m.id }

  unfoldable pub register_if_absent : Text → Text → Option Member → Exec (MachineState W) (Unit {0})
  unfolding record_register_member add_member
  register_if_absent pool address (some m) = record_register_member m
  register_if_absent pool address none = do
    m ← add_member pool address register_port
    record_register_member m

  unfoldable pub in_register_pool : Text → Option Pool → Exec (MachineState W) (Unit {0})
  unfolding register_if_absent
  in_register_pool address none = pure tt
  in_register_pool address (some pool) = do
    members ← attempt (on_world (list_pool_members scope.ovh_client pool.id))
    register_if_absent pool.id address (registered address register_port members)

  -- `ensureRKE2RegisterPoolMember`
  unfoldable pub ensure_rke2_register_pool_member : Text → Exec (MachineState W) (Unit {0})
  unfolding in_register_pool
  ensure_rke2_register_pool_member address = best_effort (
      if is_empty scope.ovh_cluster.status.load_balancer_id then pure tt else do
        pool ← on_world (
            find_pool_by_name scope.ovh_client scope.ovh_cluster.status.load_balancer_id
              (codes "rke2-register-pool"))
        in_register_pool address pool)

  record_member : Member → Exec (MachineState W) (Unit {0})
  record_member m = set_status λ st. record st { lb_pool_member_id = m.id }

  unfoldable pub register_api_member : Text → Option Member → Exec (MachineState W) (Unit {0})
  unfolding record_member pool_id
  register_api_member address (some m) = record_member m
  register_api_member address none = do
    m ← or_wrap (codes "adding pool member") (add_member pool_id address api_port)
    record_member m

  -- `ensureLBPoolMember`
  unfoldable pub ensure_lb_pool_member : Instance → Exec (MachineState W) (Unit {0})
  unfolding pool_id
  ensure_lb_pool_member instance =
      if not scope.is_control_plane
      then pure tt
      else if is_empty pool_id
      then fail (plain (codes "OVHCluster.Status.PoolID not set yet"))
      else if is_empty (private_ip instance)
      then fail (plain (codes "no IPv4 private address on instance " ++ instance.id))
      else do
        members ← attempt (on_world (list_pool_members scope.ovh_client pool_id))
        register_api_member (private_ip instance)
            (registered (private_ip instance) api_port members)
        ensure_rke2_register_pool_member (private_ip instance)

  -- `removeLBPoolMember`
  unfoldable pub remove_lb_pool_member : Exec (MachineState W) (Unit {0})
  unfolding pool_id
  remove_lb_pool_member s =
      if is_empty s.machine.status.lb_pool_member_id
      then (ok tt, s)
      else if is_empty pool_id
      then (ok tt, s)
      else best_effort
          (on_world (remove_pool_member scope.ovh_client pool_id s.machine.status.lb_pool_member_id)
            >> (set_status λ st. record st { lb_pool_member_id = [] }))
          s
