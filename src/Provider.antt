-- ===== src/Provider.antt =====
-- pkg/provider: Pods, their statuses, and what the provider keeps of each Pod. The fields are those
-- that the Pod lifecycle reads or writes; times of day are left out.
pub mod Summary
pub mod Ready
pub mod Reconcile
pub mod Launches
pub mod Unended
pub mod Restart
pub mod Backoff
pub mod Rebuild
pub mod Replace
pub mod Extends
pub mod Create
pub mod Lifecycle
pub mod Undo
pub mod Delete
pub mod Adopt
pub mod Rollback
pub mod Probe
pub mod Probing
mod Tests
mod LifecycleTests
mod ProbeTests
use macvz.Prelude.{
  Text, codes_key, text_key, number_key, ℕ, String, Bool, true, false, Option, none, some, List, [],
  ◌∷◌,
}
use macvz.Runtime.{RtError, ContainerSpec, Trace, Runtime}
use macvz.Network.Ipam.{PodIpam}
use macvz.Prelude.Dict.{Dict, get}
use macvz.Network.Addr.{IpText}
use macvz.Prelude.Dict
use Prim.Native.String.{◌++◌ as join_text}

-- corev1.RestartPolicy, unset and unrecognized values included.
pub data RestartPolicy : Type 0 where
  unset_policy always on_failure never : RestartPolicy
  other_policy : String → RestartPolicy

-- The probes are given by their presence.
pub record Container : Type 0 where
  pub name : String
  pub image : String
  pub startup_probe : Bool
  pub readiness_probe : Bool
  pub liveness_probe : Bool

-- The exit code is an int32 by its bits.
pub data ContainerState : Type 0 where
  state_waiting : String → String → ContainerState
  state_running : ContainerState
  state_terminated : ℕ → String → String → ContainerState

pub record ContainerStatus : Type 0 where
  pub name : String
  pub image : String
  pub container_id : Option Text
  pub state : ContainerState
  pub ready : Bool
  pub started : Option Bool
  pub restart_count : ℕ

pub data PodPhase : Type 0 where
  pod_pending pod_running pod_succeeded pod_failed : PodPhase

pub data ConditionType : Type 0 where
  pod_initialized containers_ready pod_ready : ConditionType

pub record Condition : Type 0 where
  pub kind : ConditionType
  pub status : Bool
  pub reason : String
  pub message : String

pub record PodStatus : Type 0 where
  pub phase : PodPhase
  pub pod_ip : String
  pub host_ip : String
  pub reason : String
  pub message : String
  pub container_statuses : List ContainerStatus
  pub conditions : List Condition

pub record Pod : Type 0 where
  pub namespace : String
  pub name : String
  pub restart_policy : RestartPolicy
  pub containers : List Container
  pub labels : List (String × String)
  pub annotations : List (String × String)
  pub termination_grace : Option ℕ
  pub status : PodStatus

pub record Workload : Type 0 where
  pub container : String
  pub id : Text

pub record ProbeState : Type 0 where
  pub has_startup : Bool
  pub has_readiness : Bool
  pub has_liveness : Bool
  pub startup_done : Bool
  pub ready : Bool

pub record PodState : Type 0 where
  pub pod : Pod
  pub workloads : List Workload
  pub terminal_status : Option PodStatus
  pub vm_ip : String
  pub attached : Bool
  pub spec : ContainerSpec
  pub restart_policy : RestartPolicy
  pub restarts : Dict String ℕ
  pub restarting : Bool
  pub probes : Option ProbeState

-- The Pod network path, by what Attach and Detach answer after the calls made so far.
pub record PodNetwork : Type 0 where
  pub attach : Trace → String → String → String → Option RtError
  pub detach : Trace → String → Option RtError

-- The fields of a Provider that do not change while it runs, the text of an IP address, and whether
-- a caller's context is cancelled after the calls made so far.
pub record Host : Type 0 where
  pub runtime : Runtime
  pub pod_net : Option PodNetwork
  pub host_ip : String
  pub restart_backoff_base : ℕ
  pub show_ip : IpText → String
  pub cancelled : Trace → Bool

pub record Provider : Type 0 where
  pub pods : Dict String PodState
  pub ipam : Option PodIpam

-- podKey
abbrev pub pod_key : Pod → String
pod_key p = join_text p.namespace (join_text "/" p.name)

abbrev pub is_empty_text : String → Bool
is_empty_text String.[] = true
is_empty_text (String.◌∷◌ c s) = false

-- Go's zero int for a missing key
abbrev pub count_of : Dict String ℕ → String → ℕ
count_of restarts container = elim (Dict.get restarts container) [ none ↦ 0 | some n ↦ n ]
