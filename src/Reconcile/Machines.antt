-- ===== src/Reconcile/Machines.antt =====
-- OVHMachineReconciler.Reconcile.
use cluster_api_provider_ovh.Prelude.{
  Option, none, some, Text, Outcome, ok, err, Exec, pure, fail, lift, attempt, ◌>>=◌, ◌>>◌,
  if◌then◌else◌,
}
use cluster_api_provider_ovh.Cloud.{World}
use cluster_api_provider_ovh.Client.Retry.{Client}
use cluster_api_provider_ovh.NodeInit.{outside}
use cluster_api_provider_ovh.Resources.{OvhMachine, OvhCluster, Result, no_requeue, requeue}
use cluster_api_provider_ovh.Machine.Scope.{MachineScope, MachineState, on_world, requeue_delay}
use cluster_api_provider_ovh.Machine.Normal.{reconcile_normal}
use cluster_api_provider_ovh.Machine.Delete.{reconcile_delete}
use cluster_api_provider_ovh.Reconcile.Server.{Manager, OwnerMachine, OwnerCluster}
use cluster_api_provider_ovh.Reconcile.Clients.{get_ovh_client_from_cluster}
use cluster_api_provider_ovh.Reconcile.Deferred.{Session, in_session, with_patch, or_false}

module _ {W : Type 0} (m : Manager W) where
  -- `scope := &MachineScope{...}`, with the answers of the predicates on the owners.
  unfoldable pub machine_scope :
      OwnerMachine → OwnerCluster → OvhCluster → Client W → OvhMachine → MachineScope W
  machine_scope owner cluster ovh_cluster client machine = record {
    cluster_namespace = cluster.namespace;
    cluster_name = cluster.name;
    paused = m.is_paused cluster machine;
    infrastructure_provisioned = or_false cluster.infrastructure_provisioned;
    machine_namespace = owner.namespace;
    machine_name = owner.name;
    data_secret_name = owner.data_secret_name;
    is_control_plane = m.is_control_plane_machine owner;
    ovh_cluster = ovh_cluster;
    ovh_client = client;
  }

  -- `if !ovhMachine.DeletionTimestamp.IsZero() { ... }`
  unfoldable pub dispatch : MachineScope W → Exec (MachineState W) Result
  dispatch scope s =
      if s.machine.meta.deleting
      then reconcile_delete m.kube scope s
      else reconcile_normal m.kube scope s

  -- A client that cannot be made is logged, and asks for a requeue.
  unfoldable pub with_machine_client :
      OwnerMachine → OwnerCluster → OvhCluster → Outcome (Client W) → Exec (MachineState W) Result
  unfolding machine_scope dispatch
  with_machine_client owner cluster ovh_cluster (err e) s = (ok (requeue requeue_delay), s)
  with_machine_client owner cluster ovh_cluster (ok client) s =
      dispatch (machine_scope owner cluster ovh_cluster client s.machine) s

  unfoldable pub in_owner_cluster :
      OwnerMachine → Option OwnerCluster → Exec (MachineState W) Result
  unfolding with_machine_client
  in_owner_cluster owner none = pure no_requeue
  in_owner_cluster owner (some cluster) = do
    ovh_cluster ←
        on_world (outside (m.get_cluster cluster.namespace cluster.infrastructure_ref.name))
    made ← attempt (on_world (get_ovh_client_from_cluster m ovh_cluster))
    with_machine_client owner cluster ovh_cluster made

  unfoldable pub with_owner_machine : Option OwnerMachine → Exec (MachineState W) Result
  unfolding in_owner_cluster
  with_owner_machine none = pure (requeue requeue_delay)
  with_owner_machine (some owner) = do
    cluster ← on_world (outside (m.cluster_of_machine owner))
    in_owner_cluster owner cluster

  -- The part of Reconcile behind the patch helper.
  unfoldable pub reconcile_owned : Exec (MachineState W) Result
  unfolding with_owner_machine
  reconcile_owned s =
      (do owner ← on_world (outside (m.owner_machine s.machine.meta)); with_owner_machine owner) s

  unfoldable pub owned_machine : OvhMachine → World W → Outcome Result × (OvhMachine × World W)
  unfolding reconcile_owned
  owned_machine machine w =
      let (r, s) = reconcile_owned (record { machine = machine; world = w }) in
      (r, (s.machine, s.world))

  unfoldable pub fetched_machine : Outcome OvhMachine → Exec (Session W OvhMachine) Result
  unfolding owned_machine with_patch
  fetched_machine (err e) = if m.kube.is_missing e then pure no_requeue else fail e
  fetched_machine (ok machine) =
      lift (m.machine_helper machine)
      >> with_patch (m.patch_machine machine) (owned_machine machine)

  -- `Reconcile`
  unfoldable pub reconcile_machine : Text → Text → Exec (Session W OvhMachine) Result
  unfolding fetched_machine
  reconcile_machine namespace name = do
    machine ← attempt (in_session (m.get_machine namespace name))
    fetched_machine machine
