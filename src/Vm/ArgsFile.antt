-- ===== src/Vm/ArgsFile.antt =====
-- The file `vfkit.args`, which holds an argument to a line.
use malleus.Base.{
  ℕ, sym, ◌≡◌, refl, ◌≢◌, ◌∙◌, ap, false, Option, none, some, List, [], ◌∷◌, ◌++◌, map, arith, any,
  All, All-append,
}
use mathlib.Core.List.{cons-ne-nil}
use malleus.Base.Text.{Text, codes, lines, join}
use malleus.Base.Text.Split.{Lacks, Lacks_of_any, append-ne-nil}
use malleus.Base.Text.Lines.{is_line_end, lines-join}
use malleus.Base.Number.{to_string}
use malleus.Base.Number.Laws.{to_string-All, to_string-ne-nil}
use malleus.Base.FilePath.{FilePath, display}
use malleus.Vm.{Share, VmSpec, device, share_arg, build_args, cloud_init_arg, restful_arg}
use malleus.Vm.Devices.{flatten, flags, as_device, optional, front, build_args-flatten}

-- Text of one line.
abbrev pub IsLine : Text → Type 0
IsLine = Lacks is_line_end

abbrev pub OptionalLine : Option FilePath → Type 0
OptionalLine none = Unit
OptionalLine (some p) = IsLine (display p)

pub record IsShare (share : Share) : Type 0 where
  pub path_line : IsLine (display share.host_path)
  pub tag_line : IsLine share.tag

-- No path, tag or address of the specification holds a line end.
pub record IsVmSpec (s : VmSpec) : Type 0 where
  pub efi_line : IsLine (display s.efi_store)
  pub root_line : IsLine (display s.root_disk)
  pub pool_line : IsLine (display s.pool_disk)
  pub mac_line : IsLine s.mac
  pub user_line : IsLine (display s.user_data)
  pub meta_line : IsLine (display s.meta_data)
  pub socket_line : IsLine (display s.ready_socket)
  pub shares_lines : All IsShare s.shares
  pub log_line : OptionalLine s.serial_log

abbrev IsArg : Text → Type 0
IsArg a = (a ≢ []) × IsLine a

literal : (c : ℕ) (t : Text) → any is_line_end (c ∷ t) ≡ false → IsArg (c ∷ t)
literal c t h = (cons-ne-nil _ _, Lacks_of_any _ (c ∷ t) h)

behind : (c : ℕ) (t w : Text) → any is_line_end (c ∷ t) ≡ false → IsLine w → IsArg (c ∷ (t ++ w))
behind c t w h k = (
  cons-ne-nil _ _,
  All-append (λ d. is_line_end d ≡ false) (c ∷ t) w (Lacks_of_any _ (c ∷ t) h) k,
)

pub line : (t : Text) → any is_line_end t ≡ false → IsLine t
line t h = Lacks_of_any is_line_end t h

number : (n : ℕ) → IsLine (to_string n)
number n = to_string-All _ (λ d small. ground arith) n

pub line-append : (s t : Text) → IsLine s → IsLine t → IsLine (s ++ t)
line-append s t = All-append (λ d. is_line_end d ≡ false) s t

flatten-IsArg :
    (ps : List (Text × Text)) → All (λ p. IsArg p.0 × IsArg p.1) ps → All IsArg (flatten ps)
flatten-IsArg [] _ = tt
flatten-IsArg (p ∷ ps) ((h, k), hs) = (h, (k, flatten-IsArg ps hs))

abbrev IsPair : Text × Text → Type 0
IsPair p = IsArg p.0 × IsArg p.1

device-IsArg : IsArg device
device-IsArg = literal _ _ refl

serial-IsPair :
    (log : Option FilePath) → OptionalLine log → All IsPair (map as_device (optional log))
serial-IsPair none _ = tt
serial-IsPair (some log) h =
    ((device-IsArg, behind _ (codes "irtio-serial,logFilePath=") (display log) refl h), tt)

shares-IsPair :
    (shares : List Share) (ps : List (Text × Text))
    → All IsShare shares
    → All IsPair ps
    → All IsPair (map (λ share. as_device (share_arg share)) shares ++ ps)
shares-IsPair [] ps _ h = h
shares-IsPair (share ∷ shares) ps (k, ks) h = (
  (
    device-IsArg,
    behind _ (codes "irtio-fs,sharedDir=") _ refl (
        line-append (display share.host_path) _ k.path_line
          (line-append (codes ",mountTag=") share.tag (line (codes ",mountTag=") refl) k.tag_line)),
  ),
  shares-IsPair shares ps ks h,
)

tail-IsPair :
    (s : VmSpec)
    → IsVmSpec s
    → All IsPair (
        (codes "--cloud-init", cloud_init_arg s)
        ∷ (codes "--restful-uri", restful_arg s)
        ∷ map as_device (optional s.serial_log))
tail-IsPair s h = (
  (
    literal _ _ refl,
    (
      append-ne-nil (display s.user_data) _ (cons-ne-nil _ _),
      line-append (display s.user_data) _ h.user_line (refl, h.meta_line),
    ),
  ),
  (
    (literal _ _ refl, behind _ (codes "cp://localhost:") _ refl (number s.restful_port)),
    serial-IsPair s.serial_log h.log_line,
  ),
)

front-IsPair :
    (s : VmSpec) (ps : List (Text × Text)) → IsVmSpec s → All IsPair ps → All IsPair (front s ++ ps)
front-IsPair s ps h k = (
  (literal _ _ refl, (to_string-ne-nil s.cpus, number s.cpus)),
  (
    (literal _ _ refl, (to_string-ne-nil s.memory_mib, number s.memory_mib)),
    (
      (
        literal _ _ refl,
        behind _ (codes "fi,variable-store=") _ refl
            (line-append (display s.efi_store) _ h.efi_line (line (codes ",create") refl)),
      ),
      (
        (device-IsArg, behind _ (codes "irtio-blk,path=") _ refl h.root_line),
        (
          (device-IsArg, behind _ (codes "irtio-blk,path=") _ refl h.pool_line),
          (
            (device-IsArg, behind _ (codes "irtio-net,nat,mac=") _ refl h.mac_line),
            (
              (
                device-IsArg,
                behind _ (codes "irtio-vsock,port=") _ refl (
                    line-append (to_string s.ready_port) _ (number s.ready_port) (
                      line-append (codes ",socketURL=") _ (line (codes ",socketURL=") refl) (
                        line-append (display s.ready_socket) _ h.socket_line
                          (line (codes ",listen") refl)))),
              ),
              ((device-IsArg, literal _ _ refl), k),
            ),
          ),
        ),
      ),
    ),
  ),
)

-- If no path, tag or address of the specification holds a line end, the lines of the file
-- `vfkit.args` are the arguments that the program starts `vfkit` with.
pub lines-build_args :
    (s : VmSpec) → IsVmSpec s → lines (join (codes "\n") (build_args s)) ≡ build_args s
lines-build_args s h =
    ap (λ args. lines (join (codes "\n") args)) (build_args-flatten s)
    ∙ lines-join (codes "--cpus") _ (
        flatten-IsArg (flags s)
          (front-IsPair s _ h (shares-IsPair s.shares _ h.shares_lines (tail-IsPair s h))))
    ∙ sym (build_args-flatten s)
