-- ===== src/Vm/Flags.antt =====
-- The flags that an invocation can hold.
use malleus.Base.{
  Option, none, some, ◌≡◌, refl, ◌∙◌, ap, Bool, true, false, ◌||◌, ◌==◌, List, [], ◌∷◌, ◌++◌, map,
  arith, any,
}
use malleus.Base.Text.{Text, codes, text_eq}
use malleus.Base.Text.Split.{Lacks}
use malleus.Base.FilePath.{FilePath}
use malleus.Vm.{Share, VmSpec, device, share_arg, build_args, cloud_init_arg, restful_arg}
use malleus.Vm.Devices.{
  flatten, flags, flag, as_device, optional, among_values, flags-values, build_args-flatten,
}

abbrev pub known_flags : List Text
known_flags =
    codes "--cpus"
    ∷ codes "--memory"
    ∷ codes "--bootloader"
    ∷ device
    ∷ codes "--cloud-init"
    ∷ codes "--restful-uri"
    ∷ []

abbrev pub among : Text → List Text → Bool
among f = any (λ a. text_eq a f)

abbrev among_keys : Text → List (Text × Text) → Bool
among_keys f = any (λ p. text_eq p.0 f)

among-flatten :
    (f : Text) (ps : List (Text × Text))
    → among f (flatten ps) ≡ (among_keys f ps || among_values f ps)
among-flatten f [] = refl
among-flatten f (p ∷ ps) = ground (arith, among-flatten f ps)

device_keys :
    (f : Text) (shares : List Share) (ps : List (Text × Text))
    → (text_eq device f || among_keys f (map (λ share. as_device (share_arg share)) shares ++ ps))
      ≡ (text_eq device f || among_keys f ps)
device_keys f [] ps = refl
device_keys f (share ∷ shares) ps = ground (arith, device_keys f shares ps)

optional_keys :
    (f : Text) (log : Option FilePath)
    → (text_eq device f || among_keys f (map as_device (optional log))) ≡ text_eq device f
optional_keys f none = ground arith
optional_keys f (some log) = ground arith

-- The five devices, the shares and the log are one flag.
collapse :
    (d x c r o : Bool)
    → (d || x) ≡ (d || (c || (r || o)))
    → (d || o) ≡ d
    → (d || (d || (d || (d || (d || x))))) ≡ (d || (c || (r || false)))
collapse true x c r o h k = refl
collapse false x c r o h k = rw (h, k)

flags-keys : (f : Text) (s : VmSpec) → among_keys f (flags s) ≡ among f known_flags
flags-keys f s =
    let rest : List (Text × Text) =
      (codes "--cloud-init", cloud_init_arg s)
      ∷ (codes "--restful-uri", restful_arg s)
      ∷ map as_device (optional s.serial_log) in
    ap
      (λ b.
        text_eq (codes "--cpus") f
        || (text_eq (codes "--memory") f || (text_eq (codes "--bootloader") f || b)))
      (collapse (text_eq device f) _ (text_eq (codes "--cloud-init") f)
        (text_eq (codes "--restful-uri") f) (among_keys f (map as_device (optional s.serial_log)))
        (device_keys f s.shares rest) (optional_keys f s.serial_log))

or_false : (b c : Bool) → c ≡ false → (b || c) ≡ b
or_false true c h = refl
or_false false c h = h

-- An argument that begins with two dashes and holds no comma stands in an invocation exactly if
-- it is one of the six flags `--cpus`, `--memory`, `--bootloader`, `--device`, `--cloud-init`
-- and `--restful-uri`; so no path, tag or address adds a flag, and none of the flags for a direct
-- kernel boot is ever given.
pub build_args-known_flags :
    (name : Text) (no_comma : Lacks (λ c. c == b',') name) (s : VmSpec)
    → among (flag name no_comma) (build_args s) ≡ among (flag name no_comma) known_flags
build_args-known_flags name no_comma s =
    ap (among (flag name no_comma)) (build_args-flatten s)
    ∙ among-flatten (flag name no_comma) (flags s)
    ∙ or_false _ _ (flags-values name no_comma s)
    ∙ flags-keys (flag name no_comma) s
