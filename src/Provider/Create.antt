-- ===== src/Provider/Create.antt =====
-- pkg/provider/pod.go: the Pod lifecycle. createMu makes CreatePod one step. What translation, the
-- volumes and the pull credentials come to is given by parameters; volume clean-up is left out.
use macvz.Prelude.{
  if◌then◌else◌, is_some, Text, codes_key, text_key, number_key, String, ◌⊎◌, inl, inr, Bool, true,
  false, not, Option, none, some, List, [], ◌∷◌,
}
use macvz.Runtime.{
  RtError, incompatible_arch, error_text, Phase, created, Status, ContainerSpec, call_status,
  call_pull, call_create, call_start, call_destroy, Trace, Answer, answer, failure,
}
use macvz.Provider.{
  unset_policy, Container, pod_failed, ConditionType, pod_initialized, containers_ready, pod_ready,
  Condition, PodStatus, Pod, Workload, PodState, Host,
}
use macvz.Prelude.Dict.{Dict, empty}
use macvz.Network.Ipam.{Error, ok, err, PodIpam, allocate, release, ip_of}
use macvz.Network.Ipam
use macvz.Prelude.Dict

-- What translatePod answers.
pub data Translation : Type 0 where
  translated : ContainerSpec → Translation
  configuration_pending : Translation
  unsupported : String → Translation

-- What CreatePod is told of a Pod by translatePod, ensureVolumeDirs, writeConfigFiles and
-- resolvePullAuth.
pub record Resolved : Type 0 where
  pub translation : Translation
  pub volume_dirs : Bool
  pub config_files : Bool
  pub pull_auth : Bool

pub data CreateError : Type 0 where
  configuration_not_ready volumes_not_ready config_not_ready : CreateError
  no_pod_ip : Ipam.Error → CreateError
  credentials_not_ready no_vm_address no_container : CreateError
  pull_failed create_failed start_failed recovered_start_failed attach_failed :
      RtError → CreateError

-- allocateIP: the address, "" without an allocator
unfoldable pub allocate_ip :
    Host → Option PodIpam → String → Option PodIpam × (CreateError ⊎ String)
allocate_ip h none key = (none, inr "")
allocate_ip h (some a) key =
    let (a', result) = Ipam.allocate a key in
    (some a', elim result [ Ipam.ok ip ↦ inr (h.show_ip ip) | Ipam.err e ↦ inl (no_pod_ip e) ])

-- hasAllocatedIP
abbrev pub has_allocated_ip : Option PodIpam → String → Bool
has_allocated_ip none key = false
has_allocated_ip (some a) key = is_some (Ipam.ip_of a key)

-- releaseIP
abbrev pub release_ip : Option PodIpam → String → Option PodIpam
release_ip none key = none
release_ip (some a) key = some (Ipam.release a key)

abbrev pub failed_condition : String → ConditionType → Condition
failed_condition reason kind = record { kind = kind; status = false; reason = reason; message = "" }

abbrev pub with_status : Pod → PodStatus → Pod
with_status pod status = record pod { status = status }

-- The status of markTerminalFailure.
abbrev pub terminal_failure : String → String → PodStatus
terminal_failure reason cause = record {
  phase = pod_failed;
  pod_ip = "";
  host_ip = "";
  reason = reason;
  message = cause;
  container_statuses = [];
  conditions =
      failed_condition reason pod_initialized
      ∷ failed_condition reason pod_ready
      ∷ failed_condition reason containers_ready
      ∷ [];
}

-- The Pod state that markTerminalFailure tracks.
abbrev pub terminal_state : Pod → String → String → PodState
terminal_state pod reason cause =
    let status = terminal_failure reason cause in
    record {
      pod = with_status pod status;
      workloads = [];
      terminal_status = some status;
      vm_ip = "";
      attached = false;
      spec = record { name = []; image = "" };
      restart_policy = unset_policy;
      restarts = Dict.empty;
      restarting = false;
      probes = none;
    }

-- rollback
unfoldable pub rollback : List Workload → Trace → Trace
rollback [] t = t
rollback (w ∷ workloads) t = rollback workloads (call_destroy w.id ∷ t)

-- unwindCreate
abbrev pub unwind_create : List Workload → Bool → Trace → Trace
unwind_create workloads adopted t = if adopted then t else rollback workloads t

-- lookupWorkload
abbrev pub lookup_workload : Answer Status → Option Status
lookup_workload (answer rs) = some rs
lookup_workload (failure e) = none

-- How far CreatePod gets: the Pod is tracked with a state, is failed for good, or is not created.
pub data Launch : Type 0 where
  launched : List Workload → Bool → Launch
  ends : String → Launch
  fails : CreateError → Launch

abbrev pub is_created : Phase → Bool
is_created phase = elim phase [ created ↦ true | _ ↦ false ]

abbrev pub own : Container → Text → List Workload
own c id = record { container = c.name; id = id } ∷ []

-- The recovery of a micro-VM that a previous process left.
unfoldable pub adopt : Host → Container → Status → Trace → Launch × Trace
adopt h c existing t =
    if is_created existing.phase
    then elim (h.runtime.start t existing.id) [
      | none ↦ (launched (own c existing.id) true, call_start existing.id ∷ t)
      | some e ↦ (fails (recovered_start_failed e), call_start existing.id ∷ t)
    ]
    else (launched (own c existing.id) true, t)

-- A new micro-VM: pull, create, start.
unfoldable pub build : Host → Container → ContainerSpec → Bool → Trace → Launch × Trace
build h c spec pull_auth t =
    if not pull_auth
    then (fails credentials_not_ready, t)
    else let pulled = call_pull spec.image ∷ t in
      elim (h.runtime.pull t spec.image) [
        | some incompatible_arch ↦ (ends (error_text incompatible_arch), pulled)
        | some e ↦ (fails (pull_failed e), pulled)
        | none ↦ elim (h.runtime.create pulled spec) [
          | failure e ↦ (fails (create_failed e), rollback [] (call_create spec ∷ pulled))
          | answer id ↦
              let made = call_create spec ∷ pulled in
              elim (h.runtime.start made id) [
                | some e ↦ (fails (start_failed e), rollback (own c id) (call_start id ∷ made))
                | none ↦ (launched (own c id) false, call_start id ∷ made)
              ]
        ]
      ]

-- The workload of a Pod, adopted or new.
unfoldable pub launch : Host → Container → ContainerSpec → Bool → Trace → Launch × Trace
launch h c spec pull_auth t =
    let asked = call_status spec.name ∷ t in
    elim (lookup_workload (h.runtime.status t spec.name)) [
      | some existing ↦ adopt h c existing asked
      | none ↦ build h c spec pull_auth asked
    ]
