-- ===== src/Cli/Message/Laws.antt =====
-- What `main` does with a configuration that no machine can boot with.
use malleus.Base.{
  ℕ, ◌≡◌, refl, ap, ◌∙◌, true, ◌==◌, Option, none, some, List, [], ◌∷◌, ◌++◌, Bool-cases, inl, inr,
  arith, if◌then◌else◌,
}
use malleus.Base.Text.{Text, codes}
use malleus.Base.Number.{to_string}
use malleus.Base.FilePath.{FilePath, join_path}
use malleus.Base.Result.{Result, ok, err}
use malleus.Base.Fs.{IoError, World, create_dir_all, read_to_string}
use malleus.Base.Fs.Laws.{read_to_string_inv}
use malleus.Config.{Config, ConfigError, validate}
use malleus.Cli.Settings.{load_config}
use malleus.Cli.Start.{prepare_start}
use malleus.Cli.Spawn.{cmd_start}
use malleus.Cli.Error.{config_validation}
use malleus.Cli.Run.{Setting, Cli, start, state_dir_or, run_command, run, run_with_args}
use malleus.Cli.Message.{config_text, cli_text, main}

-- The fields in the order of the checks, by the names that the messages give them.
abbrev pub fields : Config → List (Text × ℕ)
fields c =
    (codes "cpus", c.cpus)
    ∷ (codes "memory_mib", c.memory_mib)
    ∷ (codes "root_disk_gib", c.root_disk_gib)
    ∷ (codes "pool_disk_gib", c.pool_disk_gib)
    ∷ []

abbrev pub first_zero : List (Text × ℕ) → Option Text
first_zero [] = none
first_zero ((name, n) ∷ rest) = let later = first_zero rest in if n == 0 then some name else later

abbrev pub complaint : Text → Text
complaint name = name ++ codes " must be at least 1, got 0"

to_string_zero : to_string 0 ≡ codes "0"
unfolding to_string
to_string_zero = refl

zero_text : (prefix : Text) (n : ℕ) → (n == 0) ≡ true → prefix ++ to_string n ≡ prefix ++ codes "0"
zero_text prefix n h =
    let zero : n ≡ 0 = ground arith in
    ap (λ k. prefix ++ to_string k) zero ∙ ap (λ digits. prefix ++ digits) to_string_zero

refused :
    (c : Config) (name first : Text) (e : ConfigError)
    → first_zero (fields c) ≡ some name
    → first_zero (fields c) ≡ some first
    → validate c ≡ err e
    → config_text e ≡ complaint first
    → (e : ConfigError) × (validate c ≡ err e) × (config_text e ≡ complaint name)
refused c name first e h k invalid text =
    let same : first ≡ name = cc in (e, invalid, text ∙ ap complaint same)

-- A configuration with a field of 0 is refused with a message that names the first such field.
validate-complaint :
    (c : Config) (name : Text)
    → first_zero (fields c) ≡ some name
    → (e : ConfigError) × (validate c ≡ err e) × (config_text e ≡ complaint name)
unfolding validate config_text
validate-complaint c name h = elim (Bool-cases (c.cpus == 0)) [
  | inl z ↦
      refused c name (codes "cpus") (ConfigError.cpus c.cpus) h (rw z refl) (rw z refl)
        (zero_text (codes "cpus must be at least 1, got ") c.cpus z)
  | inr n1 ↦ elim (Bool-cases (c.memory_mib == 0)) [
    | inl z ↦
        refused c name (codes "memory_mib") (ConfigError.memory_mib c.memory_mib) h
          (rw (n1, z) refl) (rw (n1, z) refl)
          (zero_text (codes "memory_mib must be at least 1, got ") c.memory_mib z)
    | inr n2 ↦ elim (Bool-cases (c.root_disk_gib == 0)) [
      | inl z ↦
          refused c name (codes "root_disk_gib") (ConfigError.root_disk_gib c.root_disk_gib) h
            (rw (n1, n2, z) refl) (rw (n1, n2, z) refl)
            (zero_text (codes "root_disk_gib must be at least 1, got ") c.root_disk_gib z)
      | inr n3 ↦ elim (Bool-cases (c.pool_disk_gib == 0)) [
        | inl z ↦
            refused c name (codes "pool_disk_gib") (ConfigError.pool_disk_gib c.pool_disk_gib) h
              (rw (n1, n2, n3, z) refl) (rw (n1, n2, n3, z) refl)
              (zero_text (codes "pool_disk_gib must be at least 1, got ") c.pool_disk_gib z)
        | inr n4 ↦ let all_set : first_zero (fields c) ≡ none = rw (n1, n2, n3, n4) refl in cc
      ]
    ]
  ]
]

load_config_refuses :
    (from_toml : Text → Result Text Config) (dir : FilePath) (w : World) (raw : Text) (c : Config)
    (e : ConfigError)
    → read_to_string (join_path dir (codes "config.toml")) w ≡ (ok raw, w)
    → from_toml raw ≡ ok c
    → validate c ≡ err e
    → load_config from_toml dir w ≡ (err (config_validation e), w)
unfolding load_config
load_config_refuses from_toml dir w raw c e found parsed invalid =
    let (there, _) = read_to_string_inv (join_path dir (codes "config.toml")) w w raw found in
    rw (there, found, parsed, invalid) refl

-- If the state directory can be made, its `config.toml` is read and parsed, and a field is 0, the
-- program started with `start` exits with 1 and one line that names the first such field, in the
-- order cpus, memory, root disk, pool disk. Nothing but the directory has been made: no image, no
-- key, no file.
pub main_refuses :
    (io_text : IoError → Text) (setting : Setting) (try_parse_from : List Text → Result Text Cli)
    (args : List Text) (state_dir : Option FilePath) (w v : World) (raw name : Text) (c : Config)
    → try_parse_from args ≡ ok (record { state_dir = state_dir; command = start })
    → create_dir_all (state_dir_or setting.home state_dir) w ≡ (ok tt, v)
    → read_to_string (join_path (state_dir_or setting.home state_dir) (codes "config.toml")) v
      ≡ (ok raw, v)
    → setting.outside.from_toml raw ≡ ok c
    → first_zero (fields c) ≡ some name
    → main io_text setting try_parse_from args w ≡ (
      record {
        code = 1;
        stderr = codes "invalid VM configuration: " ++ complaint name ++ codes "\n";
      },
      v,
    )
unfolding main run_with_args run run_command cmd_start prepare_start cli_text
main_refuses io_text setting try_parse_from args state_dir w v raw name c accepted made found parsed
      zero =
    let dir = state_dir_or setting.home state_dir in
    let (e, invalid, text) = validate-complaint c name zero in
    let loaded = load_config_refuses setting.outside.from_toml dir v raw c e found parsed invalid in
    rw (accepted, made, loaded, text) refl
