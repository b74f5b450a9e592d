-- ===== src/Lib.antt =====
-- A model of MacVz, the Kubernetes node provider that runs each Pod as a micro-VM on Apple Silicon,
-- with the theorems that make its parts correct.
--
-- The parts and how they work together. The Virtual Kubelet calls the provider (pkg/provider) to
-- create, update, delete and observe Pods. The provider names the micro-VM of a Pod (WorkloadID),
-- takes an address for it from the node's allocator (pkg/network/ipam.go), builds or adopts it
-- through the runtime contract (pkg/runtime), wires it into the Pod network, and restarts it when it
-- exits or fails a probe. Micro-VMs that back no Pod are found and destroyed by the drain cleaner
-- (pkg/drain), periodically with a grace period by the orphan reaper (pkg/orphan), and for good
-- when a node is removed (pkg/noderemove), which also takes down the WireGuard mesh between the nodes
-- (pkg/network/wireguard).
--
-- Which file models what:
-- - Prelude and its children: shared names, Boolean tests, list lemmas, sorting, Go's maps (Dict),
--   and strings as lists of codes (Codes).
-- - Network/Addr: the IP addresses and CIDRs of Go's package net, as far as the allocator uses them.
-- - Network/Ipam: PodIPAM with NewPodIPAM, Allocate, Reserve, Release and IP, and the
--   provider's RecoverAllocations (pkg/provider/ipam.go); its children hold the proofs. The state is
--   the two maps and the cursor; addresses and offsets are unbounded, as in math/big.
-- - Runtime: the errors, phases and statuses of pkg/runtime. The answers of a runtime are functions
--   of all the calls made so far, so every behaviour over time is one of them.
-- - Workload: WorkloadID and sanitizeDNSLabel (pkg/provider/translate.go). SHA-256 is a parameter,
--   taken to answer 64 hexadecimal digits.
-- - Drain: IsMacVzVM, Scan and Reap (pkg/drain/cleaner.go).
-- - Orphan: the reaper's passes and runs (pkg/orphan/reaper.go): Pass and Grace follow the recorded
--   times, Runs and Live hold what a run does and does not destroy.
-- - Noderemove: Run and its steps (pkg/noderemove/noderemove.go).
-- - Provider: the Pod states and the fixed fields of the provider. Restart, Reconcile, Summary,
--   Rebuild, Probe, Create and Lifecycle model pkg/provider/restart.go, status.go, probe.go,
--   podnet.go and pod.go; the other children hold the proofs. Rebuild takes what the rest of the
--   provider does between the two critical sections of a restart as a parameter.
-- - Network/Parse and Network/Print: addresses and CIDRs as texts, as net.ParseIP, net.ParseCIDR and
--   IP.String read and write them; a canonical CIDR is its address and the number of its ones.
-- - Privhelper: the policy of the privileged helper (pkg/network/privhelper/policy.go): Validate and
--   the validator of each command; Checks holds the policy and its tests of one value, Anchor the
--   lint of a pf ruleset, WgConfig that of a WireGuard configuration. Grammar, Routes, Permits,
--   Rules, Redirects, Ruleset and Peers state independently what is permitted; Closed is the zero
--   policy. Server is the daemon (server.go, protocol.go) and Audit what it ran;
--   Limit is the limit of a request's size, Client its client (client.go).
-- - Wireguard: Mesh with Up, Sync, Down and Remove (pkg/network/wireguard/mesh.go; Interface has Up
--   and Sync), the configuration with Validate and its rendering (Config, for config.go), and
--   ParseKey (Key, for key.go). A key is its canonical base64 text. A command of the mesh is a
--   constructor, and mesh_request gives its words.
-- - Podnet: the Router of the Pod network path (pkg/network/podnet/router.go and service.go): Rule
--   has ServiceRule, Render the text of the anchor, Steps the methods. Loaded says what the host's
--   anchor holds after the commands so far. Helper is the runner that asks the helper (helper.go,
--   which pkg/network/wireguard has the same of); the other children hold the proofs.
-- - Config: the mesh and Pod network stanzas with their validation (pkg/config/mesh.go and
--   podnetwork.go) and, in Helper, the helper's policy (policy.go); Commands composes it with the
--   mesh of the same configuration.
-- - Svcroute: the rules of a Service and its reconciliation (pkg/network/svcroute/controller.go),
--   with the ServiceRule of Podnet.
--
-- How the network parts meet. The kubelet's Router and Mesh run their commands through the client of
-- the helper, which is a daemon with root's rights that checks each request against the policy of
-- the same configuration. The conditions that a theorem has on a state (Ready, KnownMesh, TidyConfig)
-- are that its texts are words, without blanks and line breaks, and that its addresses lie in the
-- networks of the policy; such a text is what the YAML of a sensible configuration has, but nothing
-- in the source enforces it. The host is a parameter: a function from the commands run so far and
-- the next one to its answer.
--
-- State is passed explicitly: an operation takes and returns the state and the list of calls made
-- so far, latest first. A mutex makes an operation one step. The loops recur on lists, on the rounds
-- that are left (the allocator's search makes last - first + 1 rounds, as the source does) or on the
-- attempts that are left (20 for the address of a micro-VM), so no fuel can run out. Durations and
-- counters wrap as the source's integers do where a theorem depends on it.
--
-- In Privhelper and Podnet a set or a map of Go is the list of its entries, and what is rendered is
-- sorted as in the source; the order of two rules of a Service with the same ClusterIP and port,
-- which sort.Slice leaves open, is that of the list. A negative MTU in a policy restricts as little
-- as zero, and is kept as zero. Errors keep their place in the code and not their text.
--
-- Not modelled: times of day, logging, the Prometheus recorders; volumes, ConfigMaps, Secrets and
-- the rest of translatePod, whose answers CreatePod takes as parameters; the handlers of probes; the
-- informers and the work queue of Service routing; the sockets, the launchd job and the
-- log rotation of the privileged helper; generating and storing WireGuard keys; the loading of the
-- YAML and the stanzas of pkg/config beside the network's; the container driver, the node object,
-- bootstrap and doctor, commands, health reports and diagnostics. The lifecycle of a Pod takes the
-- router as a parameter. Contexts are cancelled only where a loop looks at them.
pub mod Prelude
pub mod Network
pub mod Provider
pub mod Orphan
pub mod Noderemove
pub mod Config
pub mod Drain
pub mod Podnet
pub mod Privhelper
pub mod Runtime
pub mod Svcroute
pub mod Wireguard
pub mod Workload
