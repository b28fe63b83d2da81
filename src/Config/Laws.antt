-- ===== src/Config/Laws.antt =====
-- What `validate` accepts, and what it says of the rest.
use malleus.Base.{◌≡◌, ◌↔◌, ◌≤◌, ◌<◌, arith}
use malleus.Base.Result.{ok, err}
use malleus.Config.{Config, ConfigError, validate}

-- Every field is at least 1.
pub record IsUsable (c : Config) : Type 0 where
  pub some_cpus : 1 ≤ c.cpus
  pub some_memory : 1 ≤ c.memory_mib
  pub some_root : 1 ≤ c.root_disk_gib
  pub some_pool : 1 ≤ c.pool_disk_gib

-- A configuration is accepted exactly when each of its four fields is at least 1.
pub validate_iff : (c : Config) → (validate c ≡ ok tt) ↔ IsUsable c
unfolding validate
validate_iff c = (λ h. ground arith, λ h. ground arith)

-- The first field that is 0, in the order of the checks, with its value.
abbrev pub Names : Config → ConfigError → Type 0
Names c (ConfigError.cpus n) = (c.cpus ≡ 0) × (n ≡ 0)
Names c (ConfigError.memory_mib n) = (0 < c.cpus) × (c.memory_mib ≡ 0) × (n ≡ 0)
Names c (ConfigError.root_disk_gib n) =
    (0 < c.cpus) × (0 < c.memory_mib) × (c.root_disk_gib ≡ 0) × (n ≡ 0)
Names c (ConfigError.pool_disk_gib n) =
    (0 < c.cpus) × (0 < c.memory_mib) × (0 < c.root_disk_gib) × (c.pool_disk_gib ≡ 0) × (n ≡ 0)

-- An error names the first field that is 0, in the order cpus, memory, root disk, pool disk, and
-- carries its value.
validate-Names : (c : Config) (e : ConfigError) → validate c ≡ err e → Names c e
unfolding validate
validate-Names c (ConfigError.cpus n) h = ground arith
validate-Names c (ConfigError.memory_mib n) h = ground arith
validate-Names c (ConfigError.root_disk_gib n) h = ground arith
validate-Names c (ConfigError.pool_disk_gib n) h = ground arith
