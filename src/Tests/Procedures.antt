-- ===== src/Tests/Procedures.antt =====
-- Steps and plans on the small host.
use flintlock.Prelude.{subst, is_empty, ◌≡◌, refl, String, false, List, [], ◌∷◌, arith}
use flintlock.Outcome.{ok}
use flintlock.Prelude.Dict.{lookup, insert}
use flintlock.Models.Microvm.{Microvm, pending, deleting}
use flintlock.Models.Volumes.{Mount}
use flintlock.Ports.{Session, running}
use flintlock.Steps.Step.{
  Step, create_directory, kernel_mount, start_microvm, create_microvm, create_interface,
  delete_microvm, do_step, should_do, verify,
}
use flintlock.Steps.Status.{put_interface_status, put_volume_status}
use flintlock.Steps.Network.{
  create_interface_should_do, delete_interface_should_do, create_interface_do,
  create_interface_with, ensure_host_name, record_details,
}
use flintlock.Steps.Process.{create_should_do, start_should_do, delete_should_do}
use flintlock.Steps.Settle.Steps.{KeepsPromises, step_settles}
use flintlock.Steps.Frame.{SameFrame, KeepsFrame, do_step-Framed}
use flintlock.Steps.Runtime.{
  create_directory_should_do, kernel_mount_should_do, repo_release_should_do,
  delete_directory_should_do,
}
use flintlock.Models.Capability.{has}
use flintlock.Plans.{add_step}
use flintlock.Plans.Order.{IsOrdered}
use flintlock.Plans.CreateUpdate
use flintlock.Plans.CreateUpdate.Order.{create-IsOrdered}
use flintlock.Plans.Delete
use flintlock.Plans.Delete.Order.{EndsWithPublish, create-EndsWithPublish}
use flintlock.Tests.Host.{
  Host, mount_of, empty_host, provider, ports, enc, microvm_with, session, eth1,
}

host-KeepsPromises : KeepsPromises ports
host-KeepsPromises = record {
  images = record {
    mounted = λ input w mounts h. refl;
    has_source = λ input w mount rest h.
        let e : mount_of "/dev/mapper/one" ≡ mount = cc in
        subst (λ (m : Mount). is_empty m.source ≡ false) e refl;
  };
  shares = record {
    shared = λ id path w h. cc;
    has_source = λ id path w mount h.
        let e : mount_of "/run/virtiofs.sock" ≡ mount = cc in
        subst (λ (m : Mount). is_empty m.source ≡ false) e refl;
  };
  directories = record {
    made = λ dir mode w h. ground arith;
    still_there = λ dir w h. h;
    changed = λ dir mode w small there h. ground arith;
    removed = λ dir w h. refl;
    still_gone = λ dir w h. h;
  };
  interfaces = record {
    named = λ type w name h.
        let e : "fltap01" ≡ name = cc in subst (λ (n : String). is_empty n ≡ false) e refl;
    created = λ input w details h. refl;
    still_there = λ name w h. h;
    deleted = λ name w h. refl;
    still_gone = λ name w h. h;
  };
}

abbrev vm : Microvm
vm = microvm_with pending 0 0 0

abbrev after_create : Session Host
after_create = (do_step enc ports (create_interface eth1) (session vm)).1

step_settles_example : (should_do enc ports (create_interface eth1) after_create).0 ≡ ok false
unfolding do_step verify create_interface_do create_interface_with ensure_host_name record_details
    put_interface_status lookup insert
step_settles_example =
    step_settles enc ports host-KeepsPromises (create_interface eth1) (session vm) after_create
      after_create tt refl refl

provider-KeepsFrame : KeepsFrame provider
provider-KeepsFrame = record {
  create_keeps = λ vm. record { at = λ s h. h };
  start_keeps = λ vm. record { at = λ s h. h };
}

abbrev vm-SameFrame : SameFrame vm vm
vm-SameFrame = record {
  same_id = refl;
  same_version = refl;
  same_spec = refl;
  same_retry = refl;
  same_not_before = refl;
}

do_step-Framed_example :
    SameFrame vm (do_step enc ports (create_microvm provider) (session vm)).1.vm
do_step-Framed_example =
    do_step-Framed enc ports vm (create_microvm provider) (session vm) provider-KeepsFrame
      vm-SameFrame

abbrev create_plan : List (Step Host)
create_plan =
    create_directory "/var/lib/flintlock" CreateUpdate.data_dir_perm
    ∷ kernel_mount
    ∷ create_interface eth1
    ∷ create_microvm provider
    ∷ start_microvm provider
    ∷ []

create-IsOrdered_example : IsOrdered create_plan
unfolding CreateUpdate.create CreateUpdate.create_steps CreateUpdate.add_image_steps
    CreateUpdate.add_volume_steps CreateUpdate.add_network_steps CreateUpdate.ensure_status
    CreateUpdate.ensure_volume_status CreateUpdate.ensure_interface_status add_step should_do
    create_directory_should_do kernel_mount_should_do create_interface_should_do create_should_do
    start_should_do put_volume_status put_interface_status has lookup insert
create-IsOrdered_example =
    create-IsOrdered enc ports "/var/lib/flintlock" (session vm) create_plan refl

abbrev deleted : Microvm
deleted = microvm_with deleting 0 0 90

abbrev delete_plan : List (Step Host)
delete_plan = delete_microvm provider ∷ Delete.publish_deleted enc ports deleted ∷ []

create-EndsWithPublish_example : EndsWithPublish enc ports deleted delete_plan
unfolding Delete.create Delete.delete_steps Delete.add_network_steps Delete.publish_deleted add_step
    should_do delete_should_do repo_release_should_do delete_interface_should_do
    delete_directory_should_do has lookup
create-EndsWithPublish_example =
    create-EndsWithPublish enc ports "/var/lib/flintlock/vm/one"
      (record { vm = deleted; world = record empty_host { process = running } }) delete_plan refl
