-- ===== src/Vm/Tests.antt =====
-- The test cases of src/vm.rs, and the theorems at their inputs.
use Prim.Native.String.{String}
use malleus.Base.{◌==◌, ◌≡◌, refl, false, none, some, [], ◌∷◌}
use malleus.Base.Text.{codes}
use malleus.Base.Text.Split.{Lacks_of_any}
use malleus.Base.Number.{to_string}
use malleus.Base.FilePath.{FilePath, display}
use malleus.Vm.{VmSpec, build_args}
use malleus.Vm.Devices.{devices, flag, devices-build_args}
use malleus.Vm.Flags.{among, build_args-known_flags}

abbrev in_state : String → FilePath
in_state name = codes name ∷ codes "/s" ∷ []

abbrev spec : VmSpec
spec = record {
  cpus = 4;
  memory_mib = 4096;
  efi_store = in_state "efi-store";
  root_disk = in_state "root.raw";
  pool_disk = in_state "pool.raw";
  mac = codes "52:54:00:12:34:56";
  user_data = in_state "user-data";
  meta_data = in_state "meta-data";
  network_config = none;
  ready_socket = in_state "ready.sock";
  ready_port = 5;
  restful_port = 8081;
  shares = [];
  serial_log = none;
}

documented_invocation :
    build_args spec
    ≡ codes "--cpus"
      ∷ codes "4"
      ∷ codes "--memory"
      ∷ codes "4096"
      ∷ codes "--bootloader"
      ∷ codes "efi,variable-store=/s/efi-store,create"
      ∷ codes "--device"
      ∷ codes "virtio-blk,path=/s/root.raw"
      ∷ codes "--device"
      ∷ codes "virtio-blk,path=/s/pool.raw"
      ∷ codes "--device"
      ∷ codes "virtio-net,nat,mac=52:54:00:12:34:56"
      ∷ codes "--device"
      ∷ codes "virtio-vsock,port=5,socketURL=/s/ready.sock,listen"
      ∷ codes "--device"
      ∷ codes "virtio-rng"
      ∷ codes "--cloud-init"
      ∷ codes "/s/user-data,/s/meta-data"
      ∷ codes "--restful-uri"
      ∷ codes "tcp://localhost:8081"
      ∷ []
unfolding build_args to_string display
documented_invocation = refl

abbrev shared : VmSpec
shared = record spec {
  shares =
      record { host_path = codes "/Users/me/alpha" ∷ []; tag = codes "alpha" }
      ∷ record { host_path = codes "/Users/me/beta" ∷ []; tag = codes "beta" }
      ∷ [];
  serial_log = some (codes "/tmp/guest.log" ∷ []);
}

devices-build_args_example :
    devices (build_args shared)
    ≡ codes "virtio-blk,path=/s/root.raw"
      ∷ codes "virtio-blk,path=/s/pool.raw"
      ∷ codes "virtio-net,nat,mac=52:54:00:12:34:56"
      ∷ codes "virtio-vsock,port=5,socketURL=/s/ready.sock,listen"
      ∷ codes "virtio-rng"
      ∷ codes "virtio-fs,sharedDir=/Users/me/alpha,mountTag=alpha"
      ∷ codes "virtio-fs,sharedDir=/Users/me/beta,mountTag=beta"
      ∷ codes "virtio-serial,logFilePath=/tmp/guest.log"
      ∷ []
unfolding to_string display
devices-build_args_example = devices-build_args shared

build_args-known_flags_example :
    among
      (flag (codes "kernel-cmdline") (Lacks_of_any (λ c. c == b',') (codes "kernel-cmdline") refl))
      (build_args shared)
    ≡ false
build_args-known_flags_example =
    build_args-known_flags (codes "kernel-cmdline")
      (Lacks_of_any (λ c. c == b',') (codes "kernel-cmdline") refl) shared
