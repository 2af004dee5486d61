-- ===== src/Plans/CreateUpdate/Order.antt =====
-- The order of the steps of core/plans/microvm_create_update.go.
use flintlock.Prelude.{
  ◌≡◌, String, not, ◌==◌, List, [], ◌∷◌, arith, is_empty, inl, inr, Bool-cases, Option-cases,
}
use flintlock.Outcome.{ok}
use flintlock.Io.{Gives, Gives-bind, Gives-bind_any, Gives-pure, Gives-if, gets}
use flintlock.Ports.{Session, Collection, MicrovmService}
use flintlock.Models.Capability.{has, virtiofs_capability, auto_start_capability}
use flintlock.Models.Volumes.{Volume, is_some}
use flintlock.Models.Network.{NetworkInterface}
use flintlock.Models.Microvm.{Microvm}
use flintlock.Steps.CloudInit.{Encoding}
use flintlock.Steps.Step.{
  Step, create_directory, virtiofs_mount, volume_mount, kernel_mount, initrd_mount, disk_mount,
  create_interface, create_microvm, start_microvm,
}
use flintlock.Plans.Order.{rank, IsOrdered, UpTo, UpTo-weaken, Gives-add_step, Gives-add_if}
use flintlock.Plans.CreateUpdate.{
  add_virtiofs_steps, add_volume_steps, add_image_steps, add_network_steps, create_steps, create,
  is_nil, data_dir_perm, ensure_status, ensure_volume_status, ensure_interface_status,
}

module _ {W : Type 0} (enc : Encoding) (ports : Collection W) where
  Gives-virtiofs :
      (volumes : List Volume) (steps : List (Step W))
      → UpTo 1 steps
      → Gives (UpTo 1) (add_virtiofs_steps enc ports volumes steps)
  unfolding add_virtiofs_steps rank
  Gives-virtiofs [] steps u = Gives-pure steps u
  Gives-virtiofs (vol ∷ rest) steps u =
      Gives-if (is_some vol.source.virtiofs) _ _
        (Gives-bind_any (ensure_volume_status vol.id) _ λ x.
          Gives-bind (UpTo 1) _ _
            (Gives-add_step enc ports 1 1 steps (virtiofs_mount vol) (omega arith) (omega arith) u)
            (Gives-virtiofs rest))
        (Gives-virtiofs rest steps u)

  Gives-volumes :
      (volumes : List Volume) (steps : List (Step W))
      → UpTo 2 steps
      → Gives (UpTo 2) (add_volume_steps enc ports volumes steps)
  unfolding add_volume_steps rank
  Gives-volumes [] steps u = Gives-pure steps u
  Gives-volumes (vol ∷ rest) steps u =
      Gives-if (is_some vol.source.container) _ _
        (Gives-bind_any (ensure_volume_status vol.id) _ λ x.
          Gives-bind (UpTo 2) _ _
            (Gives-add_step enc ports 2 2 steps (volume_mount vol) (omega arith) (omega arith) u)
            (Gives-volumes rest))
        (Gives-volumes rest steps u)

  Gives-images :
      (steps : List (Step W)) → UpTo 1 steps → Gives (UpTo 4) (add_image_steps enc ports steps)
  unfolding add_image_steps rank
  Gives-images steps u = Gives-bind_any {A = Microvm} (gets λ s. s.vm) _ λ vm.
      Gives-bind_any (ensure_volume_status vm.spec.root_volume.id) _ λ x.
        Gives-bind (UpTo 2) _ _
          (Gives-add_if enc ports 1 2 (is_some vm.spec.root_volume.source.container) steps
            (volume_mount vm.spec.root_volume) (omega arith) (omega arith) u)
          λ steps1 u1.
            Gives-bind (UpTo 2) _ _ (Gives-volumes vm.spec.additional_volumes steps1 u1)
              λ steps2 u2.
                Gives-bind (UpTo 3) _ _
                  (Gives-add_if enc ports 2 3 (not (is_empty vm.spec.kernel.image)) steps2
                    kernel_mount (omega arith) (omega arith) u2)
                  λ steps3 u3.
                    Gives-add_if enc ports 3 4 (is_some vm.spec.initrd) steps3 initrd_mount
                      (omega arith) (omega arith) u3

  Gives-network :
      (interfaces : List NetworkInterface) (steps : List (Step W))
      → UpTo 6 steps
      → Gives (UpTo 6) (add_network_steps enc ports interfaces steps)
  unfolding add_network_steps rank
  Gives-network [] steps u = Gives-pure steps u
  Gives-network (iface ∷ rest) steps u =
      Gives-bind_any (ensure_interface_status iface.guest_device_name) _ λ x.
        Gives-bind (UpTo 6) _ _
          (Gives-add_step enc ports 6 6 steps (create_interface iface) (omega arith) (omega arith)
            u)
          (Gives-network rest)

  Gives-create_steps :
      (state_dir : String) (provider : MicrovmService W)
      → Gives (UpTo 8) (create_steps enc ports state_dir provider)
  unfolding create_steps rank
  Gives-create_steps state_dir provider = Gives-bind_any ensure_status _ λ x.
      Gives-bind_any {A = Microvm} (gets λ s. s.vm) _ λ vm.
        Gives-bind (UpTo 0) _ _
          (Gives-add_step enc ports 0 0 [] (create_directory state_dir data_dir_perm) (omega arith)
            (omega arith) (tt, tt))
          λ steps1 u1.
            Gives-bind (UpTo 1) _ _
              (Gives-if (has provider.capabilities virtiofs_capability) _ _
                (Gives-virtiofs vm.spec.additional_volumes steps1
                  (UpTo-weaken 0 1 steps1 (omega arith) u1))
                (Gives-pure steps1 (UpTo-weaken 0 1 steps1 (omega arith) u1)))
              λ steps2 u2. Gives-bind (UpTo 4) _ _ (Gives-images steps2 u2) λ steps3 u3.
                Gives-bind (UpTo 5) _ _
                  (Gives-add_if enc ports 4 5 (not (is_nil vm.spec.additional_volumes)) steps3
                    disk_mount (omega arith) (omega arith) u3)
                  λ steps4 u4.
                    Gives-bind (UpTo 6) _ _
                      (Gives-network vm.spec.network_interfaces steps4
                        (UpTo-weaken 5 6 steps4 (omega arith) u4))
                      λ steps5 u5.
                        Gives-bind (UpTo 7) _ _
                          (Gives-add_step enc ports 6 7 steps5 (create_microvm provider)
                            (omega arith) (omega arith) u5)
                          λ steps6 u6.
                            Gives-add_if enc ports 7 8
                              (not (has provider.capabilities auto_start_capability)) steps6
                              (start_microvm provider) (omega arith) (omega arith) u6

  -- A plan that creates or updates a microvm, once made, has its steps in order: the directory, the
  -- shares, the volumes, the kernel, the initial disk, the cloud-init mounts, the interfaces, then
  -- the process is created and only then started, whichever of these steps are wanted.
  pub create-IsOrdered :
      (state_dir : String) (s : Session W) (steps : List (Step W))
      → (create enc ports state_dir s).0 ≡ ok steps
      → IsOrdered steps
  unfolding create
  create-IsOrdered state_dir s steps h =
      elim (Option-cases (ports.microvm_providers s.vm.spec.provider)) [
        | inl e ↦ cc (rw (e, create) at h)
        | inr (provider, e) ↦ elim (Bool-cases (s.vm.spec.deleted_at == 0)) [
          | inl d ↦
              ((Gives-create_steps state_dir provider).gives s steps (rw (e, d, create) at h)).1
          | inr d ↦ grind arith
        ]
      ]
