-- ===== src/Lib.antt =====
-- Flintlock: a service that creates, updates and deletes the microvms of a host.
--
-- A client's request reaches the use cases of core/application. These store the wanted microvm in
-- the repository and publish an event; the controller answers the event by a reconciliation, which
-- makes a plan (core/plans), a list of steps (core/steps), and has the actuator (pkg/planner) run
-- it until the plan has no more steps. The steps call the services of the host through the
-- interfaces of core/ports. A failure is retried after a wait that grows with the retries.
--
-- Models    core/models: identifiers (models.VMID), the specification and status of a microvm.
-- Outcome   core/errors and the errors of core/application; what a call can come to, panics included.
-- Io        explicit state passing: what was written before an error stays written.
-- Ports     core/ports: every service as a record of operations on a world `W`, which is a
--           parameter everywhere. A `Session` is the microvm behind the shared pointer and the world.
-- Planner   pkg/planner/actuator.go: `react` and `executePlan`.
-- Queue     pkg/queue/queue.go, each call as one step under the queue's lock.
-- Steps     core/steps: ShouldDo, Do and Verify of each procedure, together the type `Step`. A
--           step's pointer to a status is the status map's entry under the key that the plan used.
-- Plans     core/plans: Create and Finalise of the plan that creates or updates and of the one that
--           deletes; `add_step` asks ShouldDo and adds the step that is wanted.
-- App       core/application: CreateMicroVM, DeleteMicroVM, GetMicroVM, GetAllMicroVM and
--           ReconcileMicroVM, with reschedule, saveState and the choice of the plan.
-- Controller  infrastructure/controllers/microvm_controller.go: handleEvent, resyncSpecs and
--           processQueueItem over the queue and the use cases. Running is Run: its workers, the
--           event listener and the shutdown as the relation `Step`, which interleaves them in any
--           order and leaves the result of a reconciliation open. Listening is the event listener
--           over the messages of a subscription, a nil envelope included.
-- Grpc      infrastructure/grpc: Wire has the messages of api/types, Sanitize and Convert are
--           sanitize.go and convert.go, Server has the handlers over the use cases.
-- Network   infrastructure/network: the port NetworkService and NewIfaceName over netlink.
-- Containerd  infrastructure/containerd: Repo is the port MicroVMRepository over the content store,
--           Images the port ImageService; Lease, Labels and Mounts are what they share. Locks is
--           which mutex each operation locks, and Events the subscription to containerd's events.
-- Hypervisor  infrastructure/microvm: Os is pkg/process and shared/pid.go over the operating system,
--           Firecracker the configuration of firecracker/config.go, Firecracker/Provider its
--           provider, CloudHypervisor and its Provider the provider of cloudhypervisor/, with
--           pkg/wait; CloudInitNetwork is shared/network.go, CmdLine is
--           internal/config/kernel_cmd_line.go.
-- Virtiofs  infrastructure/virtiofs: the port VirtioFSService, on the same operating system.
-- Validation  pkg/validation: the rules of the repository, without the tags that name their fields.
-- Prelude   lists, texts, dictionaries, machine integers and Boolean tests.
-- Tests     a small host, and each result at a concrete input.
--
-- Fuel: `depth` bounds the nesting of child steps; the steps of core/steps have none, so that
-- one level is enough. `rounds` bounds the rounds of `executePlan`, which the code does not bound:
-- any number above a measure that each round makes smaller is enough. Times and counters are
-- natural numbers, taken as not overflowing; a Go `int` is an integer.
--
-- The loop over interface names runs five times, as in the code.
--
-- How the parts meet: Steps/Settle states what the steps on directories, mounts, shares and
-- interfaces need of the services, as records of promises about the ports.
-- Network/Service/Interfaces, Containerd/Images/Mounted and Virtiofs/Shares compare the
-- implementations with them, over what netlink and containerd document, and Steps/Settle/Services
-- puts them together. The providers' Runs and Live and Virtiofs/Shares look at processes over
-- Hypervisor/Os/Laws: what is documented of processes and of the one file that holds a pid, which
-- only flintlockd writes.
--
-- Parameters: the services behind the ports, netlink, the containerd client, the JSON encoding of a
-- microvm, cmp.Diff, the validator, base64, YAML, path.Join, net.ParseCIDR, net.ParseMAC, the random
-- bytes and identifiers, the operating system and the clock. The order of a Go map is that of the
-- dictionary. The 30 seconds in which cloud-hypervisor may shut down are 60 checks.
--
-- Not modelled: the disk service and the metrics (third-party libraries and text formats), the HTTP
-- client of cloud-hypervisor, who holds a lock of the repository and for how long, logging, flags
-- and start-up. The texts that wrap errors are left out. A worker that waits in Dequeue may try again
-- at any time: whom Enqueue and Shutdown wake is not modelled.
pub mod App
pub mod Containerd
pub mod Controller
pub mod Grpc
pub mod Hypervisor
pub mod Io
pub mod Models
pub mod Network
pub mod Outcome
pub mod Planner
pub mod Plans
pub mod Ports
pub mod Prelude
pub mod Queue
pub mod Steps
pub mod Tests
pub mod Validation
pub mod Virtiofs
