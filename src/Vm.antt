-- ===== src/Vm.antt =====
-- src/vm.rs: the arguments of a `vfkit` invocation.
pub mod Devices
pub mod Flags
pub mod ArgsFile
pub mod Tests
use malleus.Base.{ℕ, Option, none, some, List, [], ◌∷◌, ◌++◌}
use malleus.Base.Text.{Text, codes}
use malleus.Base.Number.{to_string}
use malleus.Base.FilePath.{FilePath, display}

pub record Share : Type 0 where
  pub host_path : FilePath
  pub tag : Text

pub record VmSpec : Type 0 where
  pub cpus : ℕ
  pub memory_mib : ℕ
  pub efi_store : FilePath
  pub root_disk : FilePath
  pub pool_disk : FilePath
  pub mac : Text
  pub user_data : FilePath
  pub meta_data : FilePath
  pub network_config : Option FilePath
  pub ready_socket : FilePath
  pub ready_port : ℕ
  pub restful_port : ℕ
  pub shares : List Share
  pub serial_log : Option FilePath

abbrev path_arg : FilePath → Text
path_arg = display

abbrev pub device : Text
device = codes "--device"

abbrev pub bootloader_arg : VmSpec → Text
bootloader_arg s = codes "efi,variable-store=" ++ (path_arg s.efi_store ++ codes ",create")

abbrev pub disk_arg : FilePath → Text
disk_arg p = codes "virtio-blk,path=" ++ path_arg p

abbrev pub net_arg : VmSpec → Text
net_arg s = codes "virtio-net,nat,mac=" ++ s.mac

abbrev pub vsock_arg : VmSpec → Text
vsock_arg s =
    codes "virtio-vsock,port="
    ++ (to_string s.ready_port
        ++ (codes ",socketURL=" ++ (path_arg s.ready_socket ++ codes ",listen")))

abbrev pub share_arg : Share → Text
share_arg share =
    codes "virtio-fs,sharedDir=" ++ (path_arg share.host_path ++ (codes ",mountTag=" ++ share.tag))

abbrev pub serial_arg : FilePath → Text
serial_arg p = codes "virtio-serial,logFilePath=" ++ path_arg p

abbrev pub cloud_init_arg : VmSpec → Text
cloud_init_arg s = path_arg s.user_data ++ b',' ∷ path_arg s.meta_data

abbrev pub restful_arg : VmSpec → Text
restful_arg s = codes "tcp://localhost:" ++ to_string s.restful_port

-- The `vec!` at the start.
unfoldable pub base_args : VmSpec → List Text
base_args s =
    codes "--cpus"
    ∷ to_string s.cpus
    ∷ codes "--memory"
    ∷ to_string s.memory_mib
    ∷ codes "--bootloader"
    ∷ bootloader_arg s
    ∷ device
    ∷ disk_arg s.root_disk
    ∷ device
    ∷ disk_arg s.pool_disk
    ∷ device
    ∷ net_arg s
    ∷ device
    ∷ vsock_arg s
    ∷ device
    ∷ codes "virtio-rng"
    ∷ []

-- The loop over the shares, with the arguments so far.
unfoldable pub push_shares : List Share → List Text → List Text
push_shares [] args = args
push_shares (share ∷ shares) args = push_shares shares (args ++ device ∷ share_arg share ∷ [])

unfoldable pub push_serial : Option FilePath → List Text → List Text
push_serial none args = args
push_serial (some log) args = args ++ device ∷ serial_arg log ∷ []

unfoldable pub build_args : VmSpec → List Text
unfolding base_args push_shares push_serial
build_args s = push_serial s.serial_log (
    push_shares s.shares (base_args s)
    ++ codes "--cloud-init" ∷ cloud_init_arg s ∷ codes "--restful-uri" ∷ restful_arg s ∷ [])
