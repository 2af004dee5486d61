-- ===== src/Tests/Messages.antt =====
-- Messages and microvms at concrete values.
use flintlock.Prelude.{◌≡◌, refl, arith, ◌+◌, ◌^◌, false, [], some, none}
use flintlock.Prelude.Int.{pos, int32}
use flintlock.Outcome.{ok}
use flintlock.Models.Vmid.{new_vmid}
use flintlock.Models.Volumes.{is_zero_volume}
use flintlock.Models.Microvm.{Microvm, pending}
use flintlock.Grpc.Wire
use flintlock.Grpc.Convert.{convert_microvm_to_model, convert_model_to_microvm_spec}
use flintlock.Grpc.Convert.RoundTrip.{forget, IsSendable, convert_microvm_to_model-spec}
use flintlock.Grpc.Sanitize.{clean_container_image_reference, sanitize_microvm_image_references}
use flintlock.Grpc.Sanitize.Clean.{HasCleanImages, sanitized-HasCleanImages}
use flintlock.Tests.Host.{microvm_with}

abbrev sent : Microvm
sent = microvm_with pending 3 0 0

sent-IsSendable : IsSendable sent
sent-IsSendable = record {
  named = refl;
  placed = refl;
  vcpu_fits = omega arith;
  vcpu_set = refl;
  memory_fits = omega arith;
  memory_set = refl;
  known = (tt, tt);
  has_metadata = ([], refl);
}

convert_microvm_to_model-spec_example :
    convert_microvm_to_model (convert_model_to_microvm_spec sent) ≡ ok (forget sent)
convert_microvm_to_model-spec_example = convert_microvm_to_model-spec sent sent-IsSendable

-- a request whose kernel image has a tab and a line end in it
abbrev untidy : Wire.MicrovmSpec
untidy = record (convert_model_to_microvm_spec sent) {
  kernel = some (record {
    image = "\tkernel\n:5.10 ";
    cmdline = [];
    filename = none;
    add_network_config = false;
  });
}

abbrev tidied : Microvm
tidied = record (forget sent) {
  spec = record (forget sent).spec {
    kernel = record {
      image = "kernel:5.10";
      filename = "";
      cmd_line = [];
      add_network_config = false;
    };
  };
}

tidies : convert_microvm_to_model (sanitize_microvm_image_references untidy) ≡ ok tidied
unfolding convert_microvm_to_model sanitize_microvm_image_references convert_model_to_microvm_spec
    new_vmid clean_container_image_reference int32 is_zero_volume
tidies = refl

sanitized-HasCleanImages_example : HasCleanImages tidied
sanitized-HasCleanImages_example = sanitized-HasCleanImages untidy tidied tidies

-- a microvm with numbers that do not fit into 32 bits
abbrev large : Microvm
large = record sent {
  version = 2 ^ 32 + 1;
  spec = record sent.spec { vcpu = pos (2 ^ 31); memory_in_mb = pos (2 ^ 40) };
}
