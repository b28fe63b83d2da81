-- ===== src/Vm/Devices.antt =====
-- The devices that an argument vector gives to `vfkit`.
use malleus.Base.{
  ℕ, ◌≡◌, refl, ◌∙◌, ap, sym, Bool, false, Option, none, some, List, [], ◌∷◌, ◌++◌, map, arith,
  if◌then◌else◌, append_assoc, append-nil, ◌==◌, ◌<◌, any,
}
use malleus.Base.Text.{Text, codes, text_eq}
use malleus.Base.Text.Split.{Lacks, Lacks_of_any}
use malleus.Base.Number.Laws.{to_string-All}
use malleus.Base.Number.{to_string}
use malleus.Base.FilePath.{FilePath, display}
use malleus.Vm.{
  Share, VmSpec, device, bootloader_arg, disk_arg, net_arg, vsock_arg, share_arg, serial_arg,
  cloud_init_arg, restful_arg, base_args, push_shares, push_serial, build_args,
}

-- Flags with their values: the arguments two by two.
abbrev pub pairs : List Text → List (Text × Text)
pairs (flag ∷ value ∷ args) = (flag, value) ∷ pairs args
pairs _ = []

abbrev pub flatten : List (Text × Text) → List Text
flatten [] = []
flatten ((flag, value) ∷ ps) = flag ∷ value ∷ flatten ps

pub pairs-flatten : (ps : List (Text × Text)) → pairs (flatten ps) ≡ ps
pairs-flatten [] = refl
pairs-flatten (p ∷ ps) = ap (λ qs. p ∷ qs) (pairs-flatten ps)

flatten-append : (ps qs : List (Text × Text)) → flatten (ps ++ qs) ≡ flatten ps ++ flatten qs
flatten-append [] qs = refl
flatten-append (p ∷ ps) qs = ap (λ args. p.0 ∷ p.1 ∷ args) (flatten-append ps qs)

abbrev pub as_device : Text → Text × Text
as_device value = (device, value)

abbrev pub optional : Option FilePath → List Text
optional none = []
optional (some log) = serial_arg log ∷ []

-- The flags up to the shares.
abbrev pub front : VmSpec → List (Text × Text)
front s =
    (codes "--cpus", to_string s.cpus)
    ∷ (codes "--memory", to_string s.memory_mib)
    ∷ (codes "--bootloader", bootloader_arg s)
    ∷ as_device (disk_arg s.root_disk)
    ∷ as_device (disk_arg s.pool_disk)
    ∷ as_device (net_arg s)
    ∷ as_device (vsock_arg s)
    ∷ as_device (codes "virtio-rng")
    ∷ []

-- The flags of an invocation, in order.
abbrev pub flags : VmSpec → List (Text × Text)
flags s =
    front s
    ++ (map (λ share. as_device (share_arg share)) s.shares
        ++ (codes "--cloud-init", cloud_init_arg s)
          ∷ (codes "--restful-uri", restful_arg s)
          ∷ map as_device (optional s.serial_log))

push_shares-flatten :
    (shares : List Share) (args : List Text)
    → push_shares shares args ≡ args ++ flatten (map (λ share. as_device (share_arg share)) shares)
unfolding push_shares
push_shares-flatten [] args = sym (append-nil args)
push_shares-flatten (share ∷ shares) args =
    push_shares-flatten shares _ ∙ append_assoc args (device ∷ share_arg share ∷ []) _

push_serial-flatten :
    (log : Option FilePath) (args : List Text)
    → push_serial log args ≡ args ++ flatten (map as_device (optional log))
unfolding push_serial
push_serial-flatten none args = sym (append-nil args)
push_serial-flatten (some log) args = refl

pub build_args-flatten : (s : VmSpec) → build_args s ≡ flatten (flags s)
unfolding build_args base_args
build_args-flatten s = simp (push_serial-flatten, push_shares-flatten, flatten-append, append_assoc)

-- What follows each `--device` in an argument vector, as the tests of the source read it.
pub devices : List Text → List Text
devices [] = []
devices (a ∷ []) = []
devices (a ∷ b ∷ args) =
    let rest = devices (b ∷ args) in if text_eq a device then b ∷ rest else rest

devices_of : List (Text × Text) → List Text
devices_of [] = []
devices_of ((flag, value) ∷ ps) =
    let rest = devices_of ps in if text_eq flag device then value ∷ rest else rest

devices_value :
    (value : Text) (args : List Text)
    → text_eq value device ≡ false
    → devices (value ∷ args) ≡ devices args
unfolding devices
devices_value value [] h = refl
devices_value value (a ∷ args) h = rw h

-- Whether a flag stands where a value should.
abbrev pub among_values : Text → List (Text × Text) → Bool
among_values flag = any (λ p. text_eq p.1 flag)

devices-flatten :
    (ps : List (Text × Text))
    → among_values device ps ≡ false
    → devices (flatten ps) ≡ devices_of ps
unfolding devices devices_of
devices-flatten [] _ = refl
devices-flatten ((flag, value) ∷ ps) h =
    ground (arith, devices_value value (flatten ps), devices-flatten ps)

-- A text with a comma is no flag.
comma-ne : (s t flag : Text) → Lacks (λ c. c == b',') flag → text_eq (s ++ b',' ∷ t) flag ≡ false
comma-ne [] t [] _ = refl
comma-ne [] t (c ∷ flag) (h, _) = ground arith
comma-ne (d ∷ s) t [] _ = refl
comma-ne (d ∷ s) t (c ∷ flag) (_, hs) = ground (arith, comma-ne s t flag hs)

head-ne : (s : Text) (c : ℕ) (flag : Text) → Lacks (λ d. d == c) s → text_eq s (c ∷ flag) ≡ false
head-ne [] c flag _ = refl
head-ne (d ∷ s) c flag (h, _) = ground arith

-- A number is no flag.
pub to_string-ne : (n c : ℕ) (flag : Text) → c < 48 → text_eq (to_string n) (c ∷ flag) ≡ false
to_string-ne n c flag h = head-ne _ c flag (to_string-All _ (λ d small. ground arith) n)

-- A flag that begins with two dashes and holds no comma.
module _ (name : Text) (no_comma : Lacks (λ c. c == b',') name) where
  abbrev pub flag : Text
  flag = b'-' ∷ b'-' ∷ name

  shares-values :
      (shares : List Share) (ps : List (Text × Text))
      → among_values flag (map (λ share. as_device (share_arg share)) shares ++ ps)
        ≡ among_values flag ps
  shares-values [] ps = refl
  shares-values (share ∷ shares) ps = shares-values shares ps

  serial-values : (log : Option FilePath) → among_values flag (map as_device (optional log)) ≡ false
  serial-values none = refl
  serial-values (some log) = refl

  -- No value of an invocation is the flag.
  pub flags-values : (s : VmSpec) → among_values flag (flags s) ≡ false
  flags-values s = ground (
    arith,
    to_string-ne s.cpus b'-' (b'-' ∷ name),
    to_string-ne s.memory_mib b'-' (b'-' ∷ name),
    shares-values s.shares (
        (codes "--cloud-init", cloud_init_arg s)
        ∷ (codes "--restful-uri", restful_arg s)
        ∷ map as_device (optional s.serial_log)),
    comma-ne (display s.user_data) (display s.meta_data) flag (refl, (refl, no_comma)),
    serial-values s.serial_log,
  )

devices_of-shares :
    (shares : List Share) (ps : List (Text × Text))
    → devices_of (map (λ share. as_device (share_arg share)) shares ++ ps)
      ≡ map share_arg shares ++ devices_of ps
unfolding devices_of
devices_of-shares [] ps = refl
devices_of-shares (share ∷ shares) ps =
    ap (λ ds. share_arg share ∷ ds) (devices_of-shares shares ps)

devices_of-optional :
    (log : Option FilePath) → devices_of (map as_device (optional log)) ≡ optional log
unfolding devices_of
devices_of-optional none = refl
devices_of-optional (some log) = refl

-- What follows the `--device` flags, and nothing else, is: the two disks, the network, the
-- readiness socket, the random number generator, every share in its order, and the serial log if
-- there is one. No path or tag can add a device.
pub devices-build_args :
    (s : VmSpec)
    → devices (build_args s)
      ≡ disk_arg s.root_disk
        ∷ disk_arg s.pool_disk
        ∷ net_arg s
        ∷ vsock_arg s
        ∷ codes "virtio-rng"
        ∷ (map share_arg s.shares ++ optional s.serial_log)
devices-build_args s =
    ap devices (build_args-flatten s)
    ∙ devices-flatten (flags s)
        (flags-values (codes "device") (Lacks_of_any (λ c. c == b',') (codes "device") refl) s)
    ∙ unfold devices_of in
      ap
        (λ ds.
          disk_arg s.root_disk
          ∷ disk_arg s.pool_disk
          ∷ net_arg s
          ∷ vsock_arg s
          ∷ codes "virtio-rng"
          ∷ ds)
        (devices_of-shares s.shares _
          ∙ ap (λ ds. map share_arg s.shares ++ ds) (devices_of-optional s.serial_log))
