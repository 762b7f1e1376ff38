-- ===== src/Etcd/Commands.antt =====
-- The commands of etcdctl, and RemoveEtcdMember. Its metrics and logs are left out. An error text
-- that goes on behind the error it wraps is spelled out, since only the log reads it.
use cluster_api_provider_ovh.Prelude.{
  ℕ, zero, suc, ◌+◌, ◌-◌, ◌++◌, Bool, ◌||◌, Option, none, some, List, [], ◌∷◌, Text, codes, ◌==◌,
  has_prefix, ltb, find?, if◌then◌else◌, Exec, Outcome, ok, err, GoError, plain, wrap, pure, lift,
  ◌>>=◌, ◌>>◌,
}
use Prim.Native.Nat.{◌/◌, ◌%◌}
use cluster_api_provider_ovh.Errors.{error_text}
use cluster_api_provider_ovh.Etcd.Pods.{
  Pod, PodApi, PodExec, Streamed, Shell, EtcdMember, EtcdMemberListResponse, etcd_container_name,
  find_healthy_etcd_pod,
}

unfoldable pub hex_digit : ℕ → ℕ
hex_digit d = if ltb d 10 then d + b'0' else d - 10 + b'a'

-- The digits of a number to the base 16: `fuel` above the number is enough, since each round
-- divides it by 16.
unfoldable pub hex_from : ℕ → ℕ → Text → Text
unfolding hex_digit
hex_from zero n rest = rest
hex_from (suc fuel) n rest =
    let more = hex_from fuel (n / 16) (hex_digit (n % 16) ∷ rest) in
    if ltb n 16 then hex_digit n ∷ rest else more

-- `strconv.FormatUint(n, 16)`
unfoldable pub format_hex : ℕ → Text
unfolding hex_from
format_hex n = hex_from (suc n) n []

-- The command line up to its last words.
abbrev pub etcdctl : List Text → List Text
etcdctl words =
    codes "/usr/local/bin/etcdctl"
    ∷ codes "--cacert"
    ∷ codes "/var/lib/rancher/rke2/server/tls/etcd/server-ca.crt"
    ∷ codes "--cert"
    ∷ codes "/var/lib/rancher/rke2/server/tls/etcd/server-client.crt"
    ∷ codes "--key"
    ∷ codes "/var/lib/rancher/rke2/server/tls/etcd/server-client.key"
    ∷ codes "--endpoints"
    ∷ codes "https://127.0.0.1:2379"
    ∷ words

abbrev pub list_command : List Text
list_command = etcdctl (codes "member" ∷ codes "list" ∷ codes "-w" ∷ codes "json" ∷ [])

unfoldable pub remove_command : ℕ → List Text
unfolding format_hex
remove_command member_id = etcdctl (codes "member" ∷ codes "remove" ∷ format_hex member_id ∷ [])

abbrev pub remove_failed : ℕ → Text
unfolding format_hex
remove_failed member_id =
    codes "etcdctl member remove " ++ (format_hex member_id ++ codes " failed")

-- `fmt.Errorf("<what>: %w (<label>: <detail>)", err)`
abbrev pub detailed : Text → GoError → Text → Text → GoError
detailed what e label detail = plain (
    what
    ++ (codes ": "
        ++ (error_text e ++ (codes " (" ++ (label ++ (codes ": " ++ (detail ++ codes ")")))))))

-- `strings.HasPrefix(m.Name, deletedNodeName+"-") || m.Name == deletedNodeName`
unfoldable pub is_member_of : Text → EtcdMember → Bool
is_member_of deleted_node_name m =
    has_prefix m.name (deleted_node_name ++ codes "-") || m.name == deleted_node_name

unfoldable pub unless_failed : Text → Streamed → Option GoError → Outcome Text
unless_failed what r none = ok r.stdout
unless_failed what r (some e) = err (detailed what e (codes "stderr") r.stderr)

-- `if err != nil { return fmt.Errorf("<what>: %w (stderr: %s)", err, stderr) }`
unfoldable pub output_of : Text → Streamed → Outcome Text
unfolding unless_failed
output_of what r = unless_failed what r r.error

module _ {W : Type 0} (p : PodApi W) (config : Text) where
  unfoldable pub run_in_pod : PodExec → Outcome (Unit {0}) → Shell W → Streamed × Shell W
  run_in_pod request (err e) s = (
    record {
      stdout = [];
      stderr = [];
      error = some (wrap (codes "failed to create SPDY executor") e);
    },
    s,
  )
  run_in_pod request (ok u) s =
      let (r, w) = p.stream config request s.outside in
      (r, record { outside = w; streamed = request ∷ s.streamed })

  -- `execInPod`
  unfoldable pub exec_in_pod : Text → Text → Text → List Text → Shell W → Streamed × Shell W
  unfolding run_in_pod
  exec_in_pod namespace pod_name container_name cmd =
      let request : PodExec = record {
        namespace = namespace;
        pod = pod_name;
        container = container_name;
        command = cmd;
      } in
      run_in_pod request (p.new_executor config request)

  -- A command in the etcd container of the pod.
  unfoldable pub etcd_exec : Text → Pod → List Text → Exec (Shell W) Text
  unfolding exec_in_pod output_of
  etcd_exec what pod cmd s =
      let (r, s') = exec_in_pod pod.namespace pod.name etcd_container_name cmd s in
      (output_of what r, s')

  unfoldable pub parsed : Text → Outcome EtcdMemberListResponse → Outcome (List EtcdMember)
  parsed stdout (ok response) = ok response.members
  parsed stdout (err e) =
      err (detailed (codes "failed to parse etcdctl member list output") e (codes "raw") stdout)

  -- `listEtcdMembers`
  unfoldable pub list_etcd_members : Pod → Exec (Shell W) (List EtcdMember)
  unfolding etcd_exec parsed
  list_etcd_members pod = do
    stdout ← etcd_exec (codes "etcdctl member list failed") pod list_command
    lift (parsed stdout (p.parse_members stdout))

  -- `removeEtcdMemberByID`
  unfoldable pub remove_etcd_member_by_id : Pod → ℕ → Exec (Shell W) (Unit {0})
  unfolding etcd_exec remove_command
  remove_etcd_member_by_id pod member_id =
      etcd_exec (remove_failed member_id) pod (remove_command member_id) >> pure tt

  -- The end of RemoveEtcdMember, for the first member that matches.
  unfoldable pub remove_target : Pod → Option EtcdMember → Exec (Shell W) (Unit {0})
  unfolding remove_etcd_member_by_id
  remove_target pod none = pure tt
  remove_target pod (some m) = remove_etcd_member_by_id pod m.id

  unfoldable pub remove_in : Text → Pod → Exec (Shell W) (Unit {0})
  unfolding list_etcd_members is_member_of remove_target
  remove_in deleted_node_name pod = do
    members ← list_etcd_members pod
    remove_target pod (find? (is_member_of deleted_node_name) members)

  -- `RemoveEtcdMember`: an error ends it, and is only logged.
  unfoldable pub remove_etcd_member : Text → Shell W → Shell W
  unfolding remove_in find_healthy_etcd_pod
  remove_etcd_member deleted_node_name s =
      ((lift (p.new_for_config config)
          >> (find_healthy_etcd_pod p config deleted_node_name >>= remove_in deleted_node_name))
        s).1
