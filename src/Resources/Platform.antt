-- ===== src/Resources/Platform.antt =====
-- The libraries of Kubernetes and Cluster API that the controllers call, as a parameter: the
-- operations here, and what is relied on as the record of laws below them.
use cluster_api_provider_ovh.Prelude.{◌≡◌, Bool, true, false, List, Text, ◌==◌, GoError, Outcome}
use cluster_api_provider_ovh.Resources.Meta.{ConditionStatus, Condition}

-- Of v1.Taint and v1.Node, what util/node_init.go reads.
pub record Taint : Type 0 where
  pub key : Text
  pub value : Text
  pub effect : Text

pub record Node : Type 0 where
  pub provider_id : Text
  pub taints : List Taint

-- `W` is the state outside the controller. A secret is its data, a map from keys to bytes; a
-- kubeconfig and a REST configuration are opaque texts.
pub record Kube (W : Type 0) : Type 0 where
  pub set_condition : Condition → List Condition → List Condition  -- conditions.Set
  pub is_true : List Condition → Text → Bool  -- conditions.IsTrue
  pub contains_finalizer : List Text → Text → Bool
  pub add_finalizer : Text → List Text → List Text
  pub remove_finalizer : Text → List Text → List Text
  pub is_missing : GoError → Bool  -- apierrors.IsNotFound
  pub get_secret : Text → Text → W → Outcome (List (Text × Text)) × W
  pub kubeconfig : Text → Text → W → Outcome Text × W  -- kubeconfig.FromSecret
  pub rest_config : Text → Outcome Text  -- clientcmd.RESTConfigFromKubeConfig
  pub new_clientset : Text → Outcome (Unit {0})  -- kubernetes.NewForConfig
  pub get_node : Text → Text → W → Outcome Node × W
  pub patch_provider_id : Text → Text → Text → W → Outcome (Unit {0}) × W
  pub patch_taints : Text → Text → List Taint → W → Outcome (Unit {0}) × W

-- What the documentation of controllerutil and of conditions says of these operations.
pub record KubeLaws {W : Type 0} (k : Kube W) : Type 0 where
  pub contains-add :
      (f : Text) (fs : List Text) → k.contains_finalizer (k.add_finalizer f fs) f ≡ true
  pub contains-remove :
      (f : Text) (fs : List Text) → k.contains_finalizer (k.remove_finalizer f fs) f ≡ false
  pub true-set :
      (c : Condition) (cs : List Condition)
      → c.status ≡ ConditionStatus.condition_true
      → k.is_true (k.set_condition c cs) c.kind ≡ true
  pub true-set_false :
      (c : Condition) (cs : List Condition)
      → c.status ≡ ConditionStatus.condition_false
      → k.is_true (k.set_condition c cs) c.kind ≡ false
  pub true-set_other :
      (c : Condition) (cs : List Condition) (kind : Text)
      → (c.kind == kind) ≡ false
      → k.is_true (k.set_condition c cs) kind ≡ k.is_true cs kind
