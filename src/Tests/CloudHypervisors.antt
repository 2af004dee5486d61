-- ===== src/Tests/CloudHypervisors.antt =====
-- Cloud-hypervisor for a small microvm.
use flintlock.Prelude.{◌≡◌, ◌≢◌, refl, String, Bool, true, false, List, [], ◌∷◌, some, none}
use flintlock.Prelude.Dict.{lookup}
use flintlock.Prelude.Int.{ℤ}
use flintlock.Outcome.{ok}
use flintlock.Models.Vmid.{to_string, new_vmid_from_string, split_vmid_from_string, split, new_vmid}
use flintlock.Models.Volumes.{Volume, VolumeStatus, zero_volume}
use flintlock.Models.Microvm.{Microvm}
use flintlock.Ports.{Session, pending}
use flintlock.Steps.Frame.{KeepsFrame}
use flintlock.Hypervisor.Os.{pid_read_from_file}
use flintlock.Hypervisor.Firecracker.{volume_status_of}
use flintlock.Hypervisor.CloudHypervisor.{root, pid_path, path_arg, fs_arg, volume_args, disk_args}
use flintlock.Hypervisor.CloudHypervisor.Disks.{disk_values, disks_before_share, disk_args-values}
use flintlock.Hypervisor.CloudHypervisor.Provider.{
  CloudHypervisorConfig, Machinery, vm_running, create, state, cloud_hypervisor_service,
}
use flintlock.Hypervisor.CloudHypervisor.Live.{live-create, cloud_hypervisor_service-KeepsFrame}
use flintlock.Validation.{virtiofs_count, custom_only_one_virtiofs_validator}
use flintlock.Validation.Shares.{paths, validated-disks}
use flintlock.Tests.Host.{mount_of}
use flintlock.Tests.Workers.{one}
use flintlock.Tests.Machines.{Machine, machine, machine-OsLaws, machine-is_alive}
use flintlock.Tests.Hypervisors.{enc, four, mounted}

abbrev machinery : Machinery Machine
machinery = record {
  os = machine;
  open_device = λ device m. (ok 5, m);
  info = λ socket m. (ok vm_running, m);
  shutdown_vm = λ socket m. (ok tt, m);
  create_disk = λ path files m. (ok tt, m);
}

abbrev config : CloudHypervisorConfig
config = record { cloud_hypervisor_bin = "ch"; state_root = "/vm"; run_detached = true }

abbrev live : Session Machine
live = record {
  vm = record mounted { id = one };
  world = record { files = ("/vm/ns/one/01ABC/cloudhypervisor.pid", "7") ∷ []; alive = true };
}

reads_pid :
    (pid_read_from_file machine "/vm/ns/one/01ABC/cloudhypervisor.pid" live.world).0 ≡ ok (ℤ.pos 7)
unfolding pid_read_from_file lookup
reads_pid = refl

live-create_example :
    (create machinery config four enc live ≡ (ok tt, live))
    × ((state machinery config four enc "ns/one/01ABC" live.world).0 ≢ ok pending)
unfolding to_string new_vmid_from_string split_vmid_from_string split new_vmid
live-create_example =
    live-create machinery config four enc live
      (machine-OsLaws (pid_path (root config.state_root one))) (ℤ.pos 7) reads_pid
      (machine-is_alive (pid_path (root config.state_root one)) live.world (ℤ.pos 7)) "ns/one/01ABC"
      refl

cloud_hypervisor_service-KeepsFrame_example :
    KeepsFrame (cloud_hypervisor_service machinery config four enc)
cloud_hypervisor_service-KeepsFrame_example =
    cloud_hypervisor_service-KeepsFrame machinery config four enc

-- A share and then a disk: the disk's path follows `--fs`.
abbrev share : Volume
share = record zero_volume {
  id = "share";
  source = record { container = none; virtiofs = some (record { path = "/srv" }) };
}

abbrev disk : Volume
disk = record zero_volume { id = "disk" }

abbrev with_share : Microvm
with_share = record mounted {
  spec = record mounted.spec { additional_volumes = share ∷ disk ∷ [] };
  status = record mounted.status {
    volumes = some (
        ("", record { mount = mount_of "/dev/root" })
        ∷ ("share", record { mount = mount_of "/srv" })
        ∷ ("disk", record { mount = mount_of "/dev/disk" })
        ∷ []);
  };
}

abbrev made : List String × Bool
made = (
  "--disk" ∷ "path=/dev/root" ∷ "path=/vm/cloud-init.img,readonly=on" ∷ "--fs"
      ∷ "tag=user,socket=/vm/virtiofs.sock,num_queues=1,queue_size=1024" ∷ "path=/dev/disk" ∷ [],
  true,
)

makes : disk_args "/vm" with_share ≡ ok made
unfolding disk_args
makes = refl

disk_args-values_example :
    (root_status : VolumeStatus) × (sources : List String) × (volume_status_of
        with_share.spec.root_volume with_share
      ≡ ok root_status)
    × (disks_before_share with_share with_share.spec.additional_volumes ≡ ok sources)
    × (disk_values false made.0
        ≡ path_arg root_status.mount.source ∷ path_arg "/vm/cloud-init.img,readonly=on" ∷ sources)
disk_args-values_example = disk_args-values "/vm" with_share made makes

-- A disk, a share and a disk, of which the last is lost.
abbrev between : Microvm
between = record with_share {
  spec = record with_share.spec { additional_volumes = disk ∷ share ∷ disk ∷ [] };
}

abbrev between_args : List String × Bool
between_args = (
  "--disk"
      ∷ "path=/dev/root"
      ∷ "path=/vm/cloud-init.img,readonly=on"
      ∷ "path=/dev/disk"
      ∷ "--fs"
      ∷ fs_arg "/vm"
      ∷ "path=/dev/disk"
      ∷ [],
  true,
)

makes_between : disk_args "/vm" between ≡ ok between_args
unfolding disk_args volume_args volume_status_of lookup
makes_between = refl

validated-disks_example :
    (root_status : VolumeStatus) × (sources : List String) × (volume_status_of
        between.spec.root_volume between
      ≡ ok root_status)
    × (paths between (disk ∷ []) ≡ ok sources)
    × (disk_values false between_args.0
        ≡ path_arg root_status.mount.source ∷ path_arg "/vm/cloud-init.img,readonly=on" ∷ sources)
    × (virtiofs_count (disk ∷ []) ≡ 0)
    × (virtiofs_count (disk ∷ []) ≡ 0)
unfolding custom_only_one_virtiofs_validator virtiofs_count
validated-disks_example =
    validated-disks "/vm" between (disk ∷ []) share (disk ∷ []) between_args refl refl refl
      makes_between
