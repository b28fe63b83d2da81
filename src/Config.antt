-- ===== src/Config.antt =====
-- src/config.rs: the settings of the virtual machine and their check.
pub mod Laws
pub mod Tests
use malleus.Base.{ℕ, ◌==◌, if◌then◌else◌}
use malleus.Base.Result.{Result, ok, err}

pub record Config : Type 0 where
  pub cpus : ℕ
  pub memory_mib : ℕ
  pub root_disk_gib : ℕ
  pub pool_disk_gib : ℕ

pub data ConfigError : Type 0 where
  cpus : ℕ → ConfigError
  memory_mib : ℕ → ConfigError
  root_disk_gib : ℕ → ConfigError
  pool_disk_gib : ℕ → ConfigError

unfoldable pub validate : Config → Result ConfigError (Unit {0})
validate c =
    if c.cpus == 0
    then err (ConfigError.cpus c.cpus)
    else if c.memory_mib == 0
    then err (ConfigError.memory_mib c.memory_mib)
    else if c.root_disk_gib == 0
    then err (ConfigError.root_disk_gib c.root_disk_gib)
    else if c.pool_disk_gib == 0
    then err (ConfigError.pool_disk_gib c.pool_disk_gib)
    else ok tt

-- `Config::default`.
abbrev pub default : Config
default = record { cpus = 4; memory_mib = 4096; root_disk_gib = 20; pool_disk_gib = 50 }
