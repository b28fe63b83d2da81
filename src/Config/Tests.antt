-- ===== src/Config/Tests.antt =====
-- The checks of src/config.rs at concrete settings.
use malleus.Base.{◌≡◌, refl}
use malleus.Base.Result.{ok, err}
use malleus.Config.{Config, ConfigError, validate, default}

abbrev no_pool : Config
no_pool = record default { pool_disk_gib = 0 }

default_accepted : validate default ≡ ok tt
unfolding validate
default_accepted = refl

no_pool_rejected : validate no_pool ≡ err (ConfigError.pool_disk_gib 0)
unfolding validate
no_pool_rejected = refl
