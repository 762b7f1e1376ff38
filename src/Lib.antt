-- ===== src/Lib.antt =====
-- Cluster API provider for OVHcloud: the client of the OVH API, the names and errors around it, the
-- controller that turns an OVHMachine object into an instance and back, the controller of the
-- OVHCluster object (network, security groups, load balancer, floating IP and DNS), the entry points
-- of both, the conversion between the API versions, the admission webhooks and the removal of an etcd
-- member.
--
-- How the program works. Cluster API hands the controllers objects; a reconciliation reads an object,
-- calls the OVH API through the client, writes the object's status and asks for another reconciliation
-- after a delay. Every call of the client goes through one retry loop, and every decision on an error
-- through the predicates on its class.
--
-- Files, and what they model:
--   Errors      pkg/ovh/errors.go, the classes of an error (IsNotFound and its five kin)
--   Cloud       pkg/ovh/types.go, and the library behind the client as a parameter (Api): a call maps
--               a method, a path and a body to a reply or an error and changes the state of the cloud.
--               A world is that state and the record of the calls and sleeps, the latest first
--   Client      pkg/ovh/client.go, a definition for each method, under the method's name in lower case
--               with underscores; Client/Retry is the retry loop, Client/Calls the patterns that the
--               methods repeat
--   Names       util/util.go and util/cloudinit.go (GenerateRFC1035Name, ProviderIDFromInstance,
--               ParseProviderID, GetSSHKeyName, PrepareUserData), and of
--               internal/controller/ovhcluster_controller.go subnetRange and the balancer's name
--   Resources   api/v1alpha2, the objects, and Kubernetes with the helpers of Cluster API as a
--               parameter (Kube)
--   NodeInit    util/node_init.go
--   Conversion  api/v1alpha1/conversion.go, both directions of every method: Older the types of
--               v1alpha1, Hubs those of v1alpha2 behind the interface, Clusters, Machines, Templates
--               and Items (the lists) the methods; RoundTrip, MachineTrips, Lists and Rejections hold
--               proofs
--   Machine     internal/controller/ovhmachine_controller.go from ReconcileNormal and ReconcileDelete
--               downwards: Scope is what a reconciliation reads and changes, Members the load balancer
--               pools, Existing handleExistingInstance, Create createInstance, Normal and Delete the
--               two reconciliations; Frames, Readiness, Creation, Gates and Deletion hold proofs.
--               Lifecycle says what one reconciliation may make of a machine, given what the cloud
--               answered to it; Refinement, Runs and Liveness relate that to the code: one
--               reconciliation, any sequence of them, and progress
--   Cluster     internal/controller/ovhcluster_controller.go from ReconcileNormal and ReconcileDelete
--               downwards: Scope, Credentials, Network, Domains (failure domains and DNS), Groups
--               (security groups), Port (listener, pool and monitor of a port), Gateways, FloatingIps,
--               Balancer, Normal and Delete; Frames, Ports, Endpoint, Ready, Settled, NetworkReady,
--               GroupsRecorded, Deletion and Orphans hold proofs
--   Reconcile   the entry points of both controllers: Server is the API server, the owner lookups and
--               the constructor of the OVH library as a parameter (Manager), Clients NewClient,
--               NewClientFromSecret and GetOVHClientFromCluster, Deferred the patch at the end,
--               Machines and Clusters the two Reconcile methods, Watches secretToOVHCluster and
--               clusterToOVHCluster; Patched and Credentialed hold proofs
--   Etcd        util/etcd.go: Pods the choice of a pod, with client-go as a parameter (PodApi),
--               Commands etcdctl and RemoveEtcdMember; Healthy, Trail, Extension and Numbers hold
--               proofs
--   Webhooks    the admission webhooks of both versions, with net.ParseIP as a parameter: the two
--               validations of api/v1alpha2, Older those of api/v1alpha1, Validators the methods; Accepted
--               and Versions hold proofs
--   Prelude     texts, effects, lists, and the frame rules (Keeps)
--   Tests       small clouds and objects, and each theorem at a concrete input
--
-- How code corresponds to definitions. A Go function that mutates what it points at and may fail is a
-- function of type Exec S A, from a state to an Outcome and the state: what was written before an error
-- stays written. What the code logs and passes over is best_effort, tried or attempt. Texts are lists of bytes; lower case and
-- equality up to case are those of ASCII, and a byte that no name may hold is replaced alone, so names
-- are taken to be ASCII as Kubernetes demands. %q prints the text between double quotes, which holds
-- for names without quotes, backslashes and control characters.
--
-- Bounds. The retry loop counts down from maxRetries, 5, and the polling of CreateLoadBalancer from 10;
-- both recursions are structural, so no fuel is needed. The digits of a number
-- are computed with one round more than the number, and each round divides it. Numbers are natural numbers where the code
-- never goes below zero.
--
-- Not modelled: the registration of watches and types with controller-runtime (SetupWithManager and
-- the init functions), the metrics, the logger, and the command line; deep copies, which are generated.
-- A conversion that fails leaves its destination half written, which the model leaves out. The sentinel error errNetworkNotReady is a value of NetworkProgress,
-- since its caller takes it for a delay, and a delay that is returned beside an error is left out. The
-- map of security groups is walked in the order of its list.
pub mod Prelude
pub mod Errors
pub mod Cloud
pub mod Client
pub mod Names
pub mod Resources
pub mod NodeInit
pub mod Conversion
pub mod Machine
pub mod Cluster
pub mod Reconcile
pub mod Etcd
pub mod Webhooks
pub mod Tests
