-- ===== src/Plans/Delete/Order.antt =====
-- The order of the steps of core/plans/microvm_delete.go, and its last one.
use flintlock.Prelude.{
  ◌≡◌, ◌≢◌, refl, String, not, ◌&&◌, ◌==◌, List, [], ◌∷◌, ◌++◌, arith, ◌⊎◌, inl, inr, Bool-cases,
  Option-cases,
}
use flintlock.Outcome.{ok}
use flintlock.Io.{Gives, Gives-bind, Gives-bind_any, Gives-pure, Gives-if}
use flintlock.Ports.{Session, Collection, MicrovmService}
use flintlock.Models.Capability.{has, virtiofs_capability}
use flintlock.Models.Volumes.{Volume, is_some}
use flintlock.Models.Network.{NetworkInterface}
use flintlock.Models.Microvm.{Microvm}
use flintlock.Steps.CloudInit.{Encoding}
use flintlock.Steps.Step.{
  Step, delete_microvm, virtiofs_delete, repo_release, delete_interface, delete_directory,
  should_do,
}
use flintlock.Steps.Status.{volume_status, is_unmounted}
use flintlock.Steps.Runtime.{status_mount}
use flintlock.Plans.{add_step}
use flintlock.Plans.Order.{rank, UpTo, UpTo-weaken, Gives-add_step}
use flintlock.Plans.Delete.{
  add_network_steps, add_virtiofs_steps, publish_deleted, delete_steps, create, add_publish,
}

module _ {W : Type 0} (enc : Encoding) (ports : Collection W) where
  Gives-virtiofs :
      (volumes : List Volume) (steps : List (Step W))
      → UpTo 11 steps
      → Gives (UpTo 11) (add_virtiofs_steps enc ports volumes steps)
  unfolding add_virtiofs_steps rank
  Gives-virtiofs [] steps u = Gives-pure steps u
  Gives-virtiofs (vol ∷ rest) steps u = Gives-bind_any (volume_status vol.id) _ λ status.
      Gives-if (is_some vol.source.virtiofs && not (is_unmounted (status_mount status))) _ _
        (Gives-bind (UpTo 11) _ _
          (Gives-add_step enc ports 11 11 steps (virtiofs_delete vol) (omega arith) (omega arith) u)
          (Gives-virtiofs rest))
        (Gives-virtiofs rest steps u)

  Gives-network :
      (interfaces : List NetworkInterface) (steps : List (Step W))
      → UpTo 13 steps
      → Gives (UpTo 13) (add_network_steps enc ports interfaces steps)
  unfolding add_network_steps rank
  Gives-network [] steps u = Gives-pure steps u
  Gives-network (iface ∷ rest) steps u =
      Gives-bind (UpTo 13) _ _
        (Gives-add_step enc ports 13 13 steps (delete_interface iface.guest_device_name)
          (omega arith) (omega arith) u)
        (Gives-network rest)

  -- Nothing but work, or work and then the publication of one event.
  pub EndsWithPublish : Microvm → List (Step W) → Type 0
  EndsWithPublish vm steps =
      (steps ≡ [])
      ⊎ ((work : List (Step W)) × (work ≢ [])
          × UpTo 14 work
          × (steps ≡ work ++ publish_deleted enc ports vm ∷ []))

  Gives-publish :
      (vm : Microvm) (steps : List (Step W))
      → UpTo 14 steps
      → Gives (EndsWithPublish vm) (add_publish enc ports vm steps)
  unfolding EndsWithPublish add_step should_do publish_deleted
  Gives-publish vm [] u = Gives-pure [] (inl refl)
  Gives-publish vm (p ∷ steps) u =
      Gives-pure (p ∷ steps ++ publish_deleted enc ports vm ∷ [])
        (inr (p ∷ steps, (λ e. cc), u, refl))

  Gives-delete_steps :
      (state_dir : String) (provider : MicrovmService W) (s : Session W) (steps : List (Step W))
      → (delete_steps enc ports state_dir provider s).0 ≡ ok steps
      → EndsWithPublish s.vm steps
  unfolding delete_steps rank
  Gives-delete_steps state_dir provider s =
      (Gives-bind (UpTo 10) _ _
          (Gives-add_step enc ports 0 10 [] (delete_microvm provider) (omega arith) (omega arith)
            (tt, tt))
          λ steps1 u1.
            Gives-bind (UpTo 11) _ _
              (Gives-if (has provider.capabilities virtiofs_capability) _ _
                (Gives-virtiofs s.vm.spec.additional_volumes steps1
                  (UpTo-weaken 10 11 steps1 (omega arith) u1))
                (Gives-pure steps1 (UpTo-weaken 10 11 steps1 (omega arith) u1)))
              λ steps2 u2.
                Gives-bind (UpTo 12) _ _
                  (Gives-add_step enc ports 11 12 steps2 repo_release (omega arith) (omega arith)
                    u2)
                  λ steps3 u3.
                    Gives-bind (UpTo 13) _ _
                      (Gives-network s.vm.spec.network_interfaces steps3
                        (UpTo-weaken 12 13 steps3 (omega arith) u3))
                      λ steps4 u4.
                        Gives-bind (UpTo 14) _ _
                          (Gives-add_step enc ports 13 14 steps4 (delete_directory state_dir)
                            (omega arith) (omega arith) u4)
                          (Gives-publish s.vm)).gives
        s

  -- A plan to delete a microvm, once made, is empty or it consists of work and then the publication
  -- of one event that the microvm is deleted: there is no event without work. The work is ordered:
  -- the process, the shares, the stored specification, the interfaces, the directory.
  pub create-EndsWithPublish :
      (state_dir : String) (s : Session W) (steps : List (Step W))
      → (create enc ports state_dir s).0 ≡ ok steps
      → EndsWithPublish s.vm steps
  unfolding create
  create-EndsWithPublish state_dir s steps h =
      elim (Option-cases (ports.microvm_providers s.vm.spec.provider)) [
        | inl e ↦ cc (rw (e, create) at h)
        | inr (provider, e) ↦ elim (Bool-cases (s.vm.spec.deleted_at == 0)) [
          | inl d ↦ unfold EndsWithPublish in inl (grind arith)
          | inr d ↦ Gives-delete_steps state_dir provider s steps (rw (e, d, create) at h)
        ]
      ]
