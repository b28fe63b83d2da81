-- ===== src/Cli/Settings/Laws.antt =====
-- What `load_config` and `cmd_status` return.
use mathlib.Core.Path.{subst}
use malleus.Base.{
  ℕ, ◌≡◌, refl, ◌∙◌, ap, sym, Bool, true, false, some, List, Bool-cases, Option-cases, inl, inr,
}
use malleus.Base.Text.{Text, codes, trim, starts_with, strip_prefix}
use malleus.Base.Number.{parse_u32}
use malleus.Base.FilePath.{FilePath, join_path}
use malleus.Base.Result.{Result, ok, err, map_err, Result-cases}
use malleus.Base.Io.{
  pure, after, after-keeps, called-keeps, after_inv, ok_inv, convert, convert_inv, check, ◌>>=◌,
}
use malleus.Base.Fs.{World, exists, read_to_string}
use malleus.Base.Fs.Laws.{read_to_string_inv, read_to_string-world}
use malleus.Config.{Config, validate, default}
use malleus.Config.Laws.{IsUsable, validate_iff}
use malleus.Cli.Error.{CliError, CliIo, io, config_parse, config_validation}
use malleus.Cli.Process.{Ps, ps_args, pid_path, is_vm_running, live_answer}
use malleus.Cli.Settings.{pid_status, load_config, checked, vm_status, cmd_status}

pub map_err_inv :
    {E F A : Type 0} (from : E → F) (r : Result E A) (a : A) → map_err from r ≡ ok a → r ≡ ok a
map_err_inv from (ok b) a h = cc
map_err_inv from (err e) a h = cc

checked_inv :
    (cfg out : Config) (w v : World) → checked cfg w ≡ (ok out, v) → IsUsable out × (v ≡ w)
checked_inv cfg out w v h =
    let (u, w1, e, h1) = after_inv (check (map_err config_validation (validate cfg)) w) _ v h in
    let (p, q) = ok_inv cfg out w1 v h1 in
    let usable =
      (validate_iff cfg).0 (map_err_inv config_validation (validate cfg) u (ap (λ r. r.0) e)) in
    (subst IsUsable p usable, sym q ∙ sym (ap (λ r. r.1) e))

-- Whatever the file holds and however it is parsed, a configuration that is loaded is one that a
-- machine can boot with: every field is at least 1. Loading changes nothing.
pub load_config-IsUsable :
    (from_toml : Text → Result Text Config) (state_dir : FilePath) (w v : World) (cfg : Config)
    → load_config from_toml state_dir w ≡ (ok cfg, v)
    → IsUsable cfg × (v ≡ w)
unfolding load_config
load_config-IsUsable from_toml state_dir w v cfg h =
    let path = join_path state_dir (codes "config.toml") in
    elim (Bool-cases (exists path w)) [
      | inr missing ↦
          let step : load_config from_toml state_dir w ≡ checked default w = rw missing refl in
          checked_inv default cfg w v (sym step ∙ h)
      | inl there ↦
          let parse : Text → CliIo Config =
            λ raw. check (map_err (config_parse path) (from_toml raw)) >>= checked in
          let step : load_config from_toml state_dir w
              ≡ after (convert io (read_to_string path w)) parse =
            rw there refl in
          let (raw, w1, e1, h1) =
            after_inv (convert io (read_to_string path w)) parse v (sym step ∙ h) in
          let (_, same) = read_to_string_inv path w w1 raw (convert_inv io _ w1 e1) in
          let (parsed, w2, e2, h2) =
            after_inv (check (map_err (config_parse path) (from_toml raw)) w1) checked v h1 in
          let (usable, kept) = checked_inv parsed cfg w2 v h2 in
          (usable, kept ∙ sym (ap (λ r. r.1) e2) ∙ same)
    ]

running_text :
    (from_toml : Text → Result Text Config) (from_utf8_lossy : List ℕ → Text) (ps : Ps) (pid : ℕ)
    (running : Bool)
    → starts_with (codes "running") (pid_status from_toml from_utf8_lossy ps (some pid) running)
      ≡ running
unfolding strip_prefix
running_text from_toml from_utf8_lossy ps pid true = refl
running_text from_toml from_utf8_lossy ps pid false = refl

-- The status says that the machine is running exactly when the probe of the process does.
starts_with-vm_status :
    (from_toml : Text → Result Text Config) (from_utf8_lossy : List ℕ → Text) (ps : Ps)
    (state_dir : FilePath) (w : World)
    → starts_with (codes "running") (vm_status from_toml from_utf8_lossy ps state_dir w)
      ≡ is_vm_running from_utf8_lossy ps state_dir w
unfolding vm_status is_vm_running strip_prefix
starts_with-vm_status from_toml from_utf8_lossy ps state_dir w =
    elim (Result-cases (read_to_string (pid_path state_dir) w).0) [
      | inr (e, failed) ↦ rw failed refl
      | inl (pid_str, found) ↦ rw found (elim (Option-cases (parse_u32 (trim pid_str))) [
        | inl invalid ↦ rw invalid refl
        | inr (pid, valid) ↦ rw valid (
            running_text from_toml from_utf8_lossy ps pid
              (live_answer from_utf8_lossy ps (ps (ps_args pid) w)))
      ])
    ]

returned-world :
    (cfg : Config) (r : Result CliError (Unit {0})) (w : World)
    → (after (check r w) (λ _. pure cfg)).1 ≡ w
returned-world cfg (ok _) w = refl
returned-world cfg (err e) w = refl

-- Loading changes nothing, whether it succeeds or fails.
pub load_config-world :
    (from_toml : Text → Result Text Config) (state_dir : FilePath) (w : World)
    → (load_config from_toml state_dir w).1 ≡ w
unfolding load_config
load_config-world from_toml state_dir w =
    let path = join_path state_dir (codes "config.toml") in
    let same : World → Type 0 = λ v. v ≡ w in
    elim (Bool-cases (exists path w)) [
      | inr missing ↦ rw missing (returned-world default _ w)
      | inl there ↦ rw there (
          called-keeps same io (read_to_string path w) _ (read_to_string-world path w) (λ raw v k.
            after-keeps same (check (map_err (config_parse path) (from_toml raw)) v) _ k
              (λ cfg u l. returned-world cfg _ u ∙ l)))
    ]

-- Asking for the status changes nothing.
pub cmd_status-world :
    (from_toml : Text → Result Text Config) (from_utf8_lossy : List ℕ → Text) (ps : Ps)
    (state_dir : FilePath) (w : World)
    → (cmd_status from_toml from_utf8_lossy ps state_dir w).1 ≡ w
unfolding cmd_status
cmd_status-world from_toml from_utf8_lossy ps state_dir w =
    after-keeps (λ v. v ≡ w) (load_config from_toml state_dir w) _
      (load_config-world from_toml state_dir w) (λ cfg v k. k)
