-- ===== src/Provider/Rebuild.antt =====
-- pkg/provider/restart.go: the goroutine that rebuilds an exited workload, and what it uses of
-- probe.go and podnet.go. Its two critical sections are one function each; what others do between
-- them is a parameter.
use macvz.Prelude.{
  nat_beq, if◌then◌else◌, Text, codes_key, text_key, number_key, ◌==◌, ℕ, zero, suc, ◌*◌, String,
  Bool, true, false, not, ◌||◌, Option, none, some, List, [], ◌∷◌,
}
use macvz.Runtime.{
  Status, ContainerSpec, call_status, call_create, call_start, call_stop, call_destroy, call_attach,
  call_detach, Trace, Answer, answer, failure,
}
use macvz.Provider.{Workload, PodState, Host, Provider, is_empty_text, count_of}
use macvz.Prelude.Dict.{Dict, get, put}
use macvz.Provider.Restart.{second}
use macvz.Prelude.Dict

-- startProbes; the goroutines that it launches are left out.
abbrev pub start_probes : PodState → PodState
start_probes st = elim st.pod.containers [
  | [] ↦ st
  | c ∷ cs ↦
      if c.startup_probe || c.readiness_probe || c.liveness_probe
      then record st {
        probes = some (record {
          has_startup = c.startup_probe;
          has_readiness = c.readiness_probe;
          has_liveness = c.liveness_probe;
          startup_done = not c.startup_probe;
          ready = false;
        });
      }
      else st
]

-- stopProbes
abbrev pub stop_probes : PodState → PodState
stop_probes st = record st { probes = none }

abbrev pub vm_ip_poll_attempts : ℕ
vm_ip_poll_attempts = 20

abbrev pub default_stop_timeout : ℕ
default_stop_timeout = 30 * second

-- The address of a running workload, "" if there is none or no answer.
abbrev pub ip_answer : Answer Status → String
ip_answer (answer rs) = rs.ip
ip_answer (failure e) = ""

-- The loop of observeVMIPByID, by the attempts that are left.
unfoldable pub poll_vm_ip : Host → ℕ → Text → Trace → String × Trace
poll_vm_ip h zero id t = ("", t)
poll_vm_ip h (suc n) id t =
    let t' = call_status id ∷ t in
    let ip = ip_answer (h.runtime.status t id) in
    let again = poll_vm_ip h n id t' in
    if not (is_empty_text ip)
    then (ip, t')
    else if nat_beq n 0 || h.cancelled t'
    then ("", t')
    else again

-- observeVMIPByID
abbrev pub observe_vm_ip_by_id : Host → Text → Trace → String × Trace
observe_vm_ip_by_id h id t = poll_vm_ip h vm_ip_poll_attempts id t

-- What a restart reads of the Pod before it lets go of the lock.
pub record Snapshot : Type 0 where
  pub spec : ContainerSpec
  pub pod_ip : String
  pub was_attached : Bool

-- The first critical section of restartWorkload.
unfoldable pub begin_restart : String → Provider → Provider × Option Snapshot
begin_restart key p = elim (Dict.get p.pods key) [
  | none ↦ (p, none)
  | some st ↦ elim st.terminal_status [
    | some status ↦
        (record p { pods = Dict.put p.pods key (record st { restarting = false }) }, none)
    | none ↦ (
      record p { pods = Dict.put p.pods key (stop_probes st) },
      some (record { spec = st.spec; pod_ip = st.pod.status.pod_ip; was_attached = st.attached }),
    )
  ]
]

-- What the restart hands to finishRestart; no new ID is none.
pub record Rebuilt : Type 0 where
  pub new_id : Option Text
  pub attached : Bool
  pub vm_ip : String

abbrev pub not_rebuilt : Rebuilt
not_rebuilt = record { new_id = none; attached = false; vm_ip = "" }

-- The re-attachment of the new micro-VM.
unfoldable pub reattach : Host → String → String → Text → Trace → Rebuilt × Trace
reattach h key pod_ip new_id t =
    let plain : Rebuilt = record { new_id = some new_id; attached = false; vm_ip = "" } in
    elim h.pod_net [
      | none ↦ (plain, t)
      | some pn ↦
          if is_empty_text pod_ip
          then (plain, t)
          else let (vm_ip, t') = observe_vm_ip_by_id h new_id t in
            if is_empty_text vm_ip then (plain, t') else elim (pn.attach t' key pod_ip vm_ip) [
              | none ↦ (
                record plain { attached = true; vm_ip = vm_ip },
                call_attach key pod_ip vm_ip ∷ t',
              )
              | some e ↦ (plain, call_attach key pod_ip vm_ip ∷ t')
            ]
    ]

-- The teardown of the exited workload.
unfoldable pub tear_down : Host → String → Text → Bool → Trace → Trace
tear_down h key old_id was_attached t =
    let detached : Trace = elim h.pod_net [
      | none ↦ t
      | some pn ↦ if was_attached then call_detach key ∷ t else t
    ] in
    call_destroy old_id ∷ call_stop old_id default_stop_timeout ∷ detached

-- restartWorkload between its two critical sections
unfoldable pub rebuild : Host → String → Text → Snapshot → Trace → Rebuilt × Trace
rebuild h key old_id s t =
    let down = tear_down h key old_id s.was_attached t in
    let made = call_create s.spec ∷ down in
    elim (h.runtime.create down s.spec) [
      | failure e ↦ (not_rebuilt, made)
      | answer new_id ↦ elim (h.runtime.start made new_id) [
        | some e ↦ (not_rebuilt, call_destroy new_id ∷ call_start new_id ∷ made)
        | none ↦ reattach h key s.pod_ip new_id (call_start new_id ∷ made)
      ]
    ]

-- `if st.workloads[i].id == oldID { st.workloads[i].id = newID }`
unfoldable pub swap_id : Text → Text → List Workload → List Workload
swap_id old_id new_id [] = []
swap_id old_id new_id (w ∷ workloads) =
    (if w.id == old_id then record w { id = new_id } else w) ∷ swap_id old_id new_id workloads

-- `st.restarts[st.pod.Spec.Containers[0].Name]++`
abbrev pub count_restart : PodState → Dict String ℕ
count_restart st = elim st.pod.containers [
  | [] ↦ st.restarts
  | c ∷ cs ↦ Dict.put st.restarts c.name (suc (count_of st.restarts c.name))
]

-- finishRestart
unfoldable pub finish_restart : String → Text → Rebuilt → Provider → Trace → Provider × Trace
finish_restart key old_id r p t = elim (Dict.get p.pods key) [
  | none ↦ elim r.new_id [ none ↦ (p, t) | some new_id ↦ (p, call_destroy new_id ∷ t) ]
  | some st ↦ elim r.new_id [
    | none ↦ (record p { pods = Dict.put p.pods key (record st { restarting = false }) }, t)
    | some new_id ↦
        let swapped = record st {
          restarting = false;
          workloads = swap_id old_id new_id st.workloads;
          restarts = count_restart st;
          vm_ip = r.vm_ip;
          attached = r.attached;
        } in
        (record p { pods = Dict.put p.pods key (start_probes swapped) }, t)
  ]
]

-- restartWorkload, after its backoff; `others` is what the rest of the provider does in the
-- meantime.
unfoldable pub restart_workload :
    Host
    → (Provider × Trace → Provider × Trace)
    → String
    → Text
    → Provider
    → Trace
    → Provider × Trace
restart_workload h others key old_id p t =
    let (begun, snapshot) = begin_restart key p in
    elim snapshot [
      | none ↦ (begun, t)
      | some s ↦
          let (r, t') = rebuild h key old_id s t in
          let (p', t'') = others (begun, t') in finish_restart key old_id r p' t''
    ]
